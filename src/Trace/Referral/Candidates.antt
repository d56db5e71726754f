-- ===== src/Trace/Referral/Candidates.antt =====
-- The candidates that nextCandidatesForReferral of backend/internal/trace/engine.go takes from a
-- response, against the records of the response.
use mathlib.Core.List.Memᴰ.{append_left, append_right, append_cases}
use dnswatcher.Prelude.{
  ◌≡◌, refl, sym, ap, ◌∙◌, ◌↔◌, ◌⊎◌, inl, inr, true, false, Bool-cases, Option, none, some, List,
  [], ◌∷◌, Bytes, equal, equal_iff, contains, Memᴰ,
}
use dnswatcher.Trace.Dns.{Rr, Msg}
use dnswatcher.Trace.Records.{
  unique_from, unique_strings, ns_names, ns_targets, glue_addrs, glue_of,
}
use dnswatcher.Trace.State.{Engine}
use dnswatcher.Trace.Referral.{allowed_pairs, glue_pairs}
use dnswatcher.Trace.Referral.Glue.{Gives, address_record, glue_addrs-Gives}

-- The name server of an NS record.
abbrev pub server_record : Rr → Option Bytes
server_record (Rr.ns _ target) = some target
server_record _ = none

Gives-later {ℓ} :
    {A : Type ℓ} (of : Rr → Option A) (x : A) (rr : Rr) (records : List Rr)
    → Gives of x records
    → Gives of x (rr ∷ records)
Gives-later of x rr records (r, m, e) = (r, Memᴰ.tail m, e)

abbrev with_name : Option Bytes → List Bytes → List Bytes
with_name none names = names
with_name (some name) names = name ∷ names

ns_names-cons :
    (rr : Rr) (records : List Rr)
    → ns_names (rr ∷ records) ≡ with_name (server_record rr) (ns_names records)
unfolding ns_names
ns_names-cons (Rr.a _ _) records = refl
ns_names-cons (Rr.aaaa _ _) records = refl
ns_names-cons (Rr.ns _ _) records = refl
ns_names-cons (Rr.cname _ _) records = refl
ns_names-cons (Rr.soa _ _ _ _ _ _ _ _) records = refl
ns_names-cons (Rr.other _ _) records = refl

with_name-mem :
    (name : Bytes) (given : Option Bytes) (names : List Bytes)
    → Memᴰ name (with_name given names)
    → (given ≡ some name) ⊎ Memᴰ name names
with_name-mem name none names m = inr m
with_name-mem name (some n) names (Memᴰ.head e) = inl (ap some (sym e))
with_name-mem name (some n) names (Memᴰ.tail m) = inr m

with_name-keeps :
    (name : Bytes) (given : Option Bytes) (names : List Bytes)
    → (given ≡ some name) ⊎ Memᴰ name names
    → Memᴰ name (with_name given names)
with_name-keeps name none names (inl e) = cc
with_name-keeps name none names (inr m) = m
with_name-keeps name (some n) names (inl e) = Memᴰ.head cc
with_name-keeps name (some n) names (inr m) = Memᴰ.tail m

no_names : (name : Bytes) → Memᴰ name (ns_names []) → ⊥
unfolding ns_names
no_names name m = elim m [ ]

ns_names-mem :
    (name : Bytes) (records : List Rr)
    → Memᴰ name (ns_names records)
    → Gives server_record name records
ns_names-mem name [] m = absurd (no_names name m)
ns_names-mem name (rr ∷ records) m =
    elim (with_name-mem name (server_record rr) _ (rw (ns_names-cons rr records) at m)) [
      | inl e ↦ (rr, Memᴰ.head refl, e)
      | inr later ↦ Gives-later server_record name rr records (ns_names-mem name records later)
    ]

ns_names-keeps :
    (name : Bytes) (records : List Rr)
    → Gives server_record name records
    → Memᴰ name (ns_names records)
ns_names-keeps name [] (rr, m, e) = elim m [ ]
ns_names-keeps name (r ∷ records) (rr, Memᴰ.head same, e) =
    rw (ns_names-cons r records)
      (with_name-keeps name (server_record r) _ (inl (ap server_record (sym same) ∙ e)))
ns_names-keeps name (r ∷ records) (rr, Memᴰ.tail m, e) =
    rw (ns_names-cons r records)
      (with_name-keeps name (server_record r) _ (inr (ns_names-keeps name records (rr, m, e))))

unique_from-mem :
    (name : Bytes) (names seen : List Bytes) → Memᴰ name (unique_from seen names) → Memᴰ name names
unfolding unique_from
unique_from-mem name [] seen m = m
unique_from-mem name (n ∷ names) seen m = elim (Bool-cases (contains n seen)) [
  | inl old ↦ Memᴰ.tail (unique_from-mem name names seen (rw old at m))
  | inr new ↦ elim (rw new at m) [
    | Memᴰ.head e ↦ Memᴰ.head e
    | Memᴰ.tail later ↦ Memᴰ.tail (unique_from-mem name names (n ∷ seen) later)
  ]
]

unique_from-keeps :
    (name : Bytes) (names seen : List Bytes)
    → contains name seen ≡ false
    → Memᴰ name names
    → Memᴰ name (unique_from seen names)
unfolding unique_from
unique_from-keeps name [] seen new m = elim m [ ]
unique_from-keeps name (n ∷ names) seen new m = elim (Bool-cases (equal n name)) [
  | inl same ↦ let e : n ≡ name = (equal_iff n name).0 same in rw (e, new) (Memᴰ.head refl)
  | inr ne ↦ elim m [
    | Memᴰ.head e ↦ let ok : equal n name ≡ true = (equal_iff n name).1 (sym e) in cc
    | Memᴰ.tail later ↦ elim (Bool-cases (contains n seen)) [
      | inl old ↦ rw old (unique_from-keeps name names seen new later)
      | inr fresh ↦ rw fresh (
          Memᴰ.tail
            (unique_from-keeps name names (n ∷ seen) (unfold contains in rw (ne, new) refl) later))
    ]
  ]
]

ns_targets-Gives :
    (name : Bytes) (records : List Rr)
    → Memᴰ name (ns_targets records) ↔ Gives server_record name records
unfolding ns_targets unique_strings
ns_targets-Gives name records = (
  λ m. ns_names-mem name records (unique_from-mem name (ns_names records) [] m),
  λ given.
      unique_from-keeps name (ns_names records) [] (unfold contains in refl)
        (ns_names-keeps name records given),
)

module _ (e : Engine) where
  allowed_pairs-mem :
      (name ip ns : Bytes) (ips : List Bytes)
      → Memᴰ (name, ip) (allowed_pairs e ns ips)
      → (name ≡ ns) × Memᴰ ip ips × (e.allow ip ≡ true)
  unfolding allowed_pairs
  allowed_pairs-mem name ip ns [] m = elim m [ ]
  allowed_pairs-mem name ip ns (i ∷ ips) m = elim (Bool-cases (e.allow i)) [
    | inl ok ↦ elim (rw ok at m) [
      | Memᴰ.head same ↦
          let at_ip : ip ≡ i = ap (λ p. p.1) same in
          (ap (λ p. p.0) same, Memᴰ.head at_ip, rw at_ip ok)
      | Memᴰ.tail later ↦
          let (n, m', h) = allowed_pairs-mem name ip ns ips later in (n, Memᴰ.tail m', h)
    ]
    | inr bad ↦
        let (n, m', h) = allowed_pairs-mem name ip ns ips (rw bad at m) in (n, Memᴰ.tail m', h)
  ]

  allowed_pairs-keeps :
      (ns ip : Bytes) (ips : List Bytes)
      → e.allow ip ≡ true
      → Memᴰ ip ips
      → Memᴰ (ns, ip) (allowed_pairs e ns ips)
  unfolding allowed_pairs
  allowed_pairs-keeps ns ip [] ok m = elim m [ ]
  allowed_pairs-keeps ns ip (i ∷ ips) ok (Memᴰ.head same) =
      let here : e.allow i ≡ true = ap e.allow (sym same) ∙ ok in
      rw here (Memᴰ.head (ap (λ p. (ns, p)) same))
  allowed_pairs-keeps ns ip (i ∷ ips) ok (Memᴰ.tail m) = elim (Bool-cases (e.allow i)) [
    | inl here ↦ rw here (Memᴰ.tail (allowed_pairs-keeps ns ip ips ok m))
    | inr bad ↦ rw bad (allowed_pairs-keeps ns ip ips ok m)
  ]

  glue_pairs-mem :
      (name ip : Bytes) (glue : List (Bytes × List Bytes)) (names : List Bytes)
      → Memᴰ (name, ip) (glue_pairs e glue names)
      → Memᴰ name names × Memᴰ ip (glue_of name glue) × (e.allow ip ≡ true)
  unfolding glue_pairs
  glue_pairs-mem name ip glue [] m = elim m [ ]
  glue_pairs-mem name ip glue (ns ∷ names) m =
      elim (append_cases (allowed_pairs e ns (glue_of ns glue)) m) [
        | inl here ↦
            let (same, given, ok) = allowed_pairs-mem name ip ns _ here in
            (Memᴰ.head same, rw same given, ok)
        | inr later ↦
            let (m', given, ok) = glue_pairs-mem name ip glue names later in
            (Memᴰ.tail m', given, ok)
      ]

  glue_pairs-keeps :
      (name ip : Bytes) (glue : List (Bytes × List Bytes)) (names : List Bytes)
      → Memᴰ ip (glue_of name glue)
      → e.allow ip ≡ true
      → Memᴰ name names
      → Memᴰ (name, ip) (glue_pairs e glue names)
  unfolding glue_pairs
  glue_pairs-keeps name ip glue [] given ok m = elim m [ ]
  glue_pairs-keeps name ip glue (ns ∷ names) given ok (Memᴰ.head same) =
      append_left {s = allowed_pairs e ns (glue_of ns glue)} _
        (rw (sym same) (allowed_pairs-keeps name ip (glue_of name glue) ok given))
  glue_pairs-keeps name ip glue (ns ∷ names) given ok (Memᴰ.tail m) =
      append_right (allowed_pairs e ns (glue_of ns glue))
        (glue_pairs-keeps name ip glue names given ok m)

  -- The glue candidates of a response are exactly the pairs of a name that one of its NS records
  -- delegates to and an allowed address that one of its additional records gives for that very name.
  pub glue_pairs-Gives :
      (response : Msg) (name ip : Bytes)
      → Memᴰ (name, ip) (glue_pairs e (glue_addrs response.extra) (ns_targets response.ns)) ↔ (
          Gives server_record name response.ns
          × Gives address_record (name, ip) response.extra
          × (e.allow ip ≡ true))
  glue_pairs-Gives response name ip =
      let targets = ns_targets-Gives name response.ns in
      let glued = glue_addrs-Gives name ip response.extra in
      (
        λ m. let (n, given, ok) = glue_pairs-mem name ip _ _ m in (targets.0 n, glued.0 given, ok),
        λ (n, given, ok). glue_pairs-keeps name ip _ _ (glued.1 given) ok (targets.1 n),
      )
