-- ===== src/Trace/Records/Grouping.antt =====
-- `rrsetsFromSection` against a description without its map: a set for the first record of each
-- key, in that order, with the data of all the records of the key.
use mathlib.Core.List.{append_assoc, append-nil, map-append}
use dnswatcher.Prelude.{
  ◌≡◌, refl, ap, true, false, inl, inr, Bool-cases, List, [], ◌∷◌, ◌++◌, map, if◌then◌else◌, arith,
  Bytes, String, equal, equal_iff, contains, All,
}
use dnswatcher.Contracts.{RrSet}
use dnswatcher.Trace.Dns.{Rr, Env}
use dnswatcher.Trace.Records.{
  header, record_string, fresh_rrset, group_key, group_records, rrsets_from_section,
}
use dnswatcher.Trace.Records.Groups.{
  Groups, keys, AreDistinct, with_more, extended, keys-append, keys-extended, contains-snoc,
  AreDistinct-extended, AreDistinct-snoc, add_to_group-new, add_to_group-old,
}

module _ (env : Env) where
  -- Records go into one set if they agree on this: name and type with a bar between them.
  abbrev pub key_of : Rr → Bytes
  key_of rr = (header rr).name ++ (b'|' ∷ env.dns.type_to_string (header rr).rrtype)

  -- The data of the records of a key, in their order.
  abbrev pub data_of : Bytes → List Rr → List Bytes
  data_of key [] = []
  data_of key (rr ∷ records) =
      if equal (key_of rr) key then record_string rr ∷ data_of key records else data_of key records

  -- The records whose keys are neither among those seen nor earlier in the list.
  abbrev pub first_records : List Bytes → List Rr → List Rr
  first_records seen [] = []
  first_records seen (rr ∷ records) =
      if contains (key_of rr) seen
      then first_records seen records
      else rr ∷ first_records (seen ++ key_of rr ∷ []) records

  -- The set of a record's key: name, type and TTL are the record's.
  abbrev pub set_of : String → List Rr → Rr → RrSet
  set_of section records rr = record {
    section = section;
    name = (header rr).name;
    type = env.dns.type_to_string (header rr).rrtype;
    ttl = (header rr).ttl;
    values = data_of (key_of rr) records;
  }

  abbrev with_all : List Rr → Groups → Groups
  with_all records [] = []
  with_all records ((k, set) ∷ groups) =
      (k, with_more (data_of k records) set) ∷ with_all records groups

  with_all-nil : (groups : Groups) → with_all [] groups ≡ groups
  with_all-nil [] = refl
  with_all-nil ((k, set) ∷ groups) = ground (arith, append-nil set.values, with_all-nil groups)

  with_all-extended :
      (rr : Rr) (records : List Rr) (groups : Groups)
      → with_all records (extended (key_of rr) (record_string rr) groups)
        ≡ with_all (rr ∷ records) groups
  with_all-extended rr records [] = refl
  with_all-extended rr records ((k, set) ∷ groups) = ground (
    arith,
    equal_iff k (key_of rr),
    equal_iff (key_of rr) k,
    append_assoc set.values (record_string rr ∷ []) (data_of k records),
    with_all-extended rr records groups,
  )

  with_all-absent :
      (rr : Rr) (records : List Rr) (groups : Groups)
      → contains (key_of rr) (keys groups) ≡ false
      → with_all (rr ∷ records) groups ≡ with_all records groups
  unfolding contains
  with_all-absent rr records [] e = refl
  with_all-absent rr records ((k, set) ∷ groups) e =
      ground
        (arith, equal_iff k (key_of rr), equal_iff (key_of rr) k, with_all-absent rr records groups)

  with_all-append :
      (records : List Rr) (left right : Groups)
      → with_all records (left ++ right) ≡ with_all records left ++ with_all records right
  with_all-append records [] right = refl
  with_all-append records ((k, set) ∷ left) right =
      ap (◌∷◌ (k, with_more (data_of k records) set)) (with_all-append records left right)

  -- The first records behind a key that was seen have other keys.
  first_records-All :
      (key : Bytes) (seen : List Bytes) (records : List Rr)
      → contains key seen ≡ true
      → All (λ rr. equal key (key_of rr) ≡ false) (first_records seen records)
  unfolding contains
  first_records-All key seen [] e = tt
  first_records-All key seen (rr ∷ records) e = elim (Bool-cases (contains (key_of rr) seen)) [
    | inl known ↦ rw known (first_records-All key seen records e)
    | inr new ↦ rw new (
      ground (arith, equal_iff key (key_of rr)),
      first_records-All key (seen ++ key_of rr ∷ []) records
          (rw (contains-snoc key (key_of rr) seen, e) refl),
    )
  ]

  set_of-other :
      (section : String) (rr : Rr) (records firsts : List Rr)
      → All (λ r. equal (key_of rr) (key_of r) ≡ false) firsts
      → map (set_of section (rr ∷ records)) firsts ≡ map (set_of section records) firsts
  set_of-other section rr records [] h = refl
  set_of-other section rr records (r ∷ firsts) (ne, h) =
      rw ne (ap (◌∷◌ (set_of section records r)) (set_of-other section rr records firsts h))

  abbrev sets : Groups → List RrSet
  sets groups = map (λ group. group.1) groups

  set_of-made :
      (section : String) (rr : Rr) (records : List Rr)
      → with_more
          (data_of (key_of rr) records)
          (with_more (record_string rr ∷ []) (fresh_rrset env section rr))
        ≡ set_of section (rr ∷ records) rr
  unfolding fresh_rrset
  set_of-made section rr records = rw ((equal_iff (key_of rr) (key_of rr)).1 refl) refl

  group_records-sets :
      (section : String) (groups : Groups) (records : List Rr)
      → AreDistinct groups
      → sets (group_records env section groups records)
        ≡ sets (with_all records groups)
          ++ map (set_of section records) (first_records (keys groups) records)
  unfolding group_records group_key
  group_records-sets section groups [] d = rw (with_all-nil groups, append-nil (sets groups)) refl
  group_records-sets section groups (rr ∷ records) d =
      let key = key_of rr in
      let value = record_string rr in
      elim (Bool-cases (contains key (keys groups))) [
        | inl known ↦
            rw
              (
                known,
                add_to_group-old key (fresh_rrset env section rr) value groups d,
                group_records-sets section (extended key value groups) records
                    (AreDistinct-extended key value groups d),
                keys-extended key value groups,
                with_all-extended rr records groups,
                set_of-other section rr records (first_records (keys groups) records)
                    (first_records-All key (keys groups) records known),
              )
              refl
        | inr new ↦
            let made = with_more (value ∷ []) (fresh_rrset env section rr) in
            let seen =
              first_records-All key (keys groups ++ key ∷ []) records
                (rw (contains-snoc key key (keys groups), new) ((equal_iff key key).1 refl)) in
            rw
              (
                new,
                add_to_group-new key (fresh_rrset env section rr) value groups new,
                group_records-sets section (groups ++ (key, made) ∷ []) records
                    (AreDistinct-snoc key made groups new d),
                keys-append groups ((key, made) ∷ []),
                with_all-append records groups ((key, made) ∷ []),
                with_all-absent rr records groups new,
                map-append (λ (group : Bytes × RrSet). group.1) (with_all records groups)
                    ((key, with_more (data_of key records) made) ∷ []),
                set_of-made section rr records,
                set_of-other section rr records (first_records (keys groups ++ key ∷ []) records)
                    seen,
                append_assoc (sets (with_all records groups))
                    (set_of section (rr ∷ records) rr ∷ [])
                    (map (set_of section records)
                      (first_records (keys groups ++ key ∷ []) records)),
              )
              refl
      ]

  -- A section becomes one set for each key, in the order of the keys' first records; a set has the
  -- name, the type and the TTL of the first, and the data of all the records of the key in order.
  pub rrsets_from_section-first_records :
      (section : String) (records : List Rr)
      → rrsets_from_section env section records
        ≡ map (set_of section records) (first_records [] records)
  unfolding rrsets_from_section
  rrsets_from_section-first_records section records = group_records-sets section [] records tt
