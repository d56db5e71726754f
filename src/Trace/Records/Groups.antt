-- ===== src/Trace/Records/Groups.antt =====
-- The groups that `rrsetsFromSection` of backend/internal/trace/engine.go collects by key.
use dnswatcher.Prelude.{
  ◌≡◌, refl, ap, true, false, ◌||◌, List, [], ◌∷◌, ◌++◌, if◌then◌else◌, arith, Bytes, equal,
  equal_iff, contains,
}
use dnswatcher.Contracts.{RrSet}
use dnswatcher.Trace.Records.{add_to_group}

abbrev pub Groups : Type 0
Groups = List (Bytes × RrSet)

abbrev pub keys : Groups → List Bytes
keys [] = []
keys ((k, set) ∷ groups) = k ∷ keys groups

abbrev pub AreDistinct : Groups → Type 0
AreDistinct [] = Unit
AreDistinct ((k, set) ∷ groups) = (contains k (keys groups) ≡ false) × AreDistinct groups

abbrev pub with_more : List Bytes → RrSet → RrSet
with_more more set = record set { values = set.values ++ more }

-- What one more record does to the groups of which one has its key.
abbrev pub extended : Bytes → Bytes → Groups → Groups
extended key value [] = []
extended key value ((k, set) ∷ groups) =
    (k, (if equal k key then with_more (value ∷ []) set else set)) ∷ extended key value groups

pub keys-append : (left right : Groups) → keys (left ++ right) ≡ keys left ++ keys right
keys-append [] right = refl
keys-append ((k, set) ∷ left) right = ap (◌∷◌ k) (keys-append left right)

pub keys-extended :
    (key value : Bytes) (groups : Groups) → keys (extended key value groups) ≡ keys groups
keys-extended key value [] = refl
keys-extended key value ((k, set) ∷ groups) = ap (◌∷◌ k) (keys-extended key value groups)

pub contains-snoc :
    (k key : Bytes) (names : List Bytes)
    → contains k (names ++ key ∷ []) ≡ (contains k names || equal key k)
unfolding contains
contains-snoc k key [] = ground arith
contains-snoc k key (x ∷ names) = ground (arith, contains-snoc k key names)

pub AreDistinct-extended :
    (key value : Bytes) (groups : Groups)
    → AreDistinct groups
    → AreDistinct (extended key value groups)
AreDistinct-extended key value [] d = tt
AreDistinct-extended key value ((k, set) ∷ groups) (new, d) =
    (rw (keys-extended key value groups) new, AreDistinct-extended key value groups d)

pub AreDistinct-snoc :
    (key : Bytes) (set : RrSet) (groups : Groups)
    → contains key (keys groups) ≡ false
    → AreDistinct groups
    → AreDistinct (groups ++ (key, set) ∷ [])
unfolding contains
AreDistinct-snoc key set [] e d = (refl, tt)
AreDistinct-snoc key set ((k, s) ∷ groups) e (new, d) = (
  rw (keys-append groups ((key, set) ∷ []), contains-snoc k key (keys groups), new)
      (ground (arith, equal_iff k key, equal_iff key k)),
  AreDistinct-snoc key set groups (ground arith) d,
)

extended_absent :
    (key value : Bytes) (groups : Groups)
    → contains key (keys groups) ≡ false
    → extended key value groups ≡ groups
unfolding contains
extended_absent key value [] e = refl
extended_absent key value ((k, set) ∷ groups) e = ground (arith, extended_absent key value groups)

pub add_to_group-new :
    (key : Bytes) (fresh : RrSet) (value : Bytes) (groups : Groups)
    → contains key (keys groups) ≡ false
    → add_to_group key fresh value groups ≡ groups ++ (key, with_more (value ∷ []) fresh) ∷ []
unfolding add_to_group contains
add_to_group-new key fresh value [] e = refl
add_to_group-new key fresh value ((k, set) ∷ groups) e =
    ground (arith, add_to_group-new key fresh value groups)

pub add_to_group-old :
    (key : Bytes) (fresh : RrSet) (value : Bytes) (groups : Groups)
    → AreDistinct groups
    → contains key (keys groups) ≡ true
    → add_to_group key fresh value groups ≡ extended key value groups
unfolding add_to_group contains
add_to_group-old key fresh value [] d e = cc
add_to_group-old key fresh value ((k, set) ∷ groups) (new, d) e = ground (
  arith,
  equal_iff k key,
  add_to_group-old key fresh value groups d,
  extended_absent key value groups,
)
