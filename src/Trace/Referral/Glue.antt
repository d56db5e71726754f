-- ===== src/Trace/Referral/Glue.antt =====
-- The map of glueAddrs in backend/internal/trace/engine.go, against the records of the response.
use mathlib.Core.List.{append-nil}
use mathlib.Core.List.Memᴰ.{append_left, append_right, append_cases, eq_of_singleton, not-nil}
use dnswatcher.Prelude.{
  ◌≡◌, refl, sym, ap, ◌∙◌, ◌↔◌, ◌⊎◌, inl, inr, Bool-cases, Option, none, some, List, [], ◌∷◌, ◌++◌,
  if◌then◌else◌, arith, Bytes, equal, equal_iff, Memᴰ,
}
use dnswatcher.Trace.Dns.{Rr}
use dnswatcher.Trace.Records.{add_glue, glue_from, glue_addrs, glue_of}

-- The name and the address of an address record.
abbrev pub address_record : Rr → Option (Bytes × Bytes)
address_record (Rr.a h ip) = some (h.name, ip)
address_record (Rr.aaaa h ip) = some (h.name, ip)
address_record _ = none

abbrev add_record : Option (Bytes × Bytes) → List (Bytes × List Bytes) → List (Bytes × List Bytes)
add_record none glue = glue
add_record (some (name, ip)) glue = add_glue name ip glue

glue_from-cons :
    (rr : Rr) (records : List Rr) (glue : List (Bytes × List Bytes))
    → glue_from glue (rr ∷ records) ≡ glue_from (add_record (address_record rr) glue) records
unfolding glue_from
glue_from-cons (Rr.a _ _) records glue = refl
glue_from-cons (Rr.aaaa _ _) records glue = refl
glue_from-cons (Rr.ns _ _) records glue = refl
glue_from-cons (Rr.cname _ _) records glue = refl
glue_from-cons (Rr.soa _ _ _ _ _ _ _ _) records glue = refl
glue_from-cons (Rr.other _ _) records glue = refl

glue_of-add_glue :
    (name key ip : Bytes) (glue : List (Bytes × List Bytes))
    → glue_of name (add_glue key ip glue)
      ≡ glue_of name glue ++ (if equal key name then ip ∷ [] else [])
unfolding glue_of add_glue
glue_of-add_glue name key ip [] = ground arith
glue_of-add_glue name key ip ((k, ips) ∷ glue) = ground (
  arith,
  equal_iff k key,
  equal_iff k name,
  equal_iff key name,
  append-nil ips,
  append-nil (glue_of name glue),
  glue_of-add_glue name key ip glue,
)

no_glue : (name ip : Bytes) → Memᴰ ip (glue_of name []) → ⊥
unfolding glue_of
no_glue name ip m = elim m [ ]

-- A record among the records with what it gives.
abbrev pub Gives {ℓ} : {A : Type ℓ} → (Rr → Option A) → A → List Rr → Type ℓ
Gives of a records = (rr : Rr) × Memᴰ rr records × (of rr ≡ some a)

Gives-tail {ℓ} :
    {A : Type ℓ} (of : Rr → Option A) (a : A) (rr : Rr) (records : List Rr)
    → Gives of a records
    → Gives of a (rr ∷ records)
Gives-tail of a rr records (r, m, e) = (r, Memᴰ.tail m, e)

glue_of-add_record :
    (name ip : Bytes) (given : Option (Bytes × Bytes)) (glue : List (Bytes × List Bytes))
    → Memᴰ ip (glue_of name (add_record given glue))
    → Memᴰ ip (glue_of name glue) ⊎ (given ≡ some (name, ip))
glue_of-add_record name ip none glue m = inl m
glue_of-add_record name ip (some (key, new)) glue m =
    elim (append_cases (glue_of name glue) (rw (glue_of-add_glue name key new glue) at m)) [
      | inl old ↦ inl old
      | inr added ↦ elim (Bool-cases (equal key name)) [
        | inl same ↦
            let e : ip ≡ new = eq_of_singleton (rw same at added) in
            let k = (equal_iff key name).0 same in inr (rw (k, e) refl)
        | inr other ↦ absurd (not-nil (rw other at added))
      ]
    ]

glue_of-glue_from :
    (name ip : Bytes) (records : List Rr) (glue : List (Bytes × List Bytes))
    → Memᴰ ip (glue_of name (glue_from glue records))
    → Memᴰ ip (glue_of name glue) ⊎ Gives address_record (name, ip) records
glue_of-glue_from name ip [] glue m = inl (unfold glue_from in m)
glue_of-glue_from name ip (rr ∷ records) glue m =
    elim (glue_of-glue_from name ip records (add_record (address_record rr) glue)
      (rw (glue_from-cons rr records glue) at m)) [
        | inl old ↦ elim (glue_of-add_record name ip (address_record rr) glue old) [
          | inl older ↦ inl older
          | inr e ↦ inr (rr, Memᴰ.head refl, e)
        ]
        | inr later ↦ inr (Gives-tail address_record (name, ip) rr records later)
      ]

add_record-keeps :
    (name ip : Bytes) (given : Option (Bytes × Bytes)) (glue : List (Bytes × List Bytes))
    → Memᴰ ip (glue_of name glue) ⊎ (given ≡ some (name, ip))
    → Memᴰ ip (glue_of name (add_record given glue))
add_record-keeps name ip none glue (inl m) = m
add_record-keeps name ip none glue (inr e) = cc
add_record-keeps name ip (some (key, new)) glue (inl m) =
    rw (glue_of-add_glue name key new glue) (append_left _ m)
add_record-keeps name ip (some (key, new)) glue (inr e) =
    let same : key ≡ name = cc in
    let value : ip ≡ new = cc in
    rw (glue_of-add_glue name key new glue, (equal_iff key name).1 same)
      (append_right (glue_of name glue) (Memᴰ.head value))

glue_from-keeps :
    (name ip : Bytes) (records : List Rr) (glue : List (Bytes × List Bytes))
    → Memᴰ ip (glue_of name glue) ⊎ Gives address_record (name, ip) records
    → Memᴰ ip (glue_of name (glue_from glue records))
glue_from-keeps name ip [] glue (inl m) = unfold glue_from in m
glue_from-keeps name ip [] glue (inr (rr, m, e)) = elim m [ ]
glue_from-keeps name ip (rr ∷ records) glue (inl m) =
    rw (glue_from-cons rr records glue)
      (glue_from-keeps name ip records _ (inl (add_record-keeps name ip _ glue (inl m))))
glue_from-keeps name ip (rr ∷ records) glue (inr (r, Memᴰ.head same, e)) =
    rw (glue_from-cons rr records glue) (
      glue_from-keeps name ip records _
        (inl (add_record-keeps name ip _ glue (inr (ap address_record (sym same) ∙ e)))))
glue_from-keeps name ip (rr ∷ records) glue (inr (r, Memᴰ.tail m, e)) =
    rw (glue_from-cons rr records glue) (glue_from-keeps name ip records _ (inr (r, m, e)))

-- The glue of a name is what the address records of that very name give.
pub glue_addrs-Gives :
    (name ip : Bytes) (records : List Rr)
    → Memᴰ ip (glue_of name (glue_addrs records)) ↔ Gives address_record (name, ip) records
unfolding glue_addrs
glue_addrs-Gives name ip records = (
  λ m. elim (glue_of-glue_from name ip records [] m) [
    | inl none_yet ↦ absurd (no_glue name ip none_yet)
    | inr given ↦ given
  ],
  λ given. glue_from-keeps name ip records [] (inr given),
)
