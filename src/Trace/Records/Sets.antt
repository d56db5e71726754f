-- ===== src/Trace/Records/Sets.antt =====
-- What the sets of a section hold, against the records of the section.
use mathlib.Core.List.Memᴰ.{map as mem-map}
use dnswatcher.Prelude.{
  ℕ, ◌≡◌, refl, sym, ap, ◌∙◌, true, false, inl, inr, Bool-cases, List, [], ◌∷◌, ◌++◌, arith, Bytes,
  String, equal, equal_iff, contains, codes, Memᴰ, All, All-mem, any-mem,
}
use dnswatcher.Strings.{equal_fold}
use dnswatcher.Strings.Separated.{Lacks, append-eq-last}
use dnswatcher.Contracts.{RrSet}
use dnswatcher.Trace.Dns.{Header, Rr, Env}
use dnswatcher.Trace.Records.{
  header, record_string, rrsets_from_section, has_type, matches_type, first_cname,
}
use dnswatcher.Trace.Records.Grouping.{
  key_of, data_of, first_records, set_of, rrsets_from_section-first_records,
}
use dnswatcher.Trace.Records.Groups.{contains-snoc}

module _ (env : Env) where
  -- The DNS library's names of types hold no bar.
  abbrev pub HasPlainTypes : Type 0
  HasPlainTypes = (type : ℕ) → Lacks b'|' (env.dns.type_to_string type)

  data_of-mem :
      (key : Bytes) (records : List Rr) {rr : Rr}
      → Memᴰ rr records
      → key_of env rr ≡ key
      → Memᴰ (record_string rr) (data_of env key records)
  data_of-mem key [] m k = elim m [ ]
  data_of-mem key (r ∷ records) {rr} (Memᴰ.head e) k =
      rw ((equal_iff (key_of env r) key).1 (ap (key_of env) (sym e) ∙ k))
        (Memᴰ.head (ap record_string e))
  data_of-mem key (r ∷ records) {rr} (Memᴰ.tail m) k =
      elim (Bool-cases (equal (key_of env r) key)) [
        | inl same ↦ rw same (Memᴰ.tail (data_of-mem key records m k))
        | inr other ↦ rw other (data_of-mem key records m k)
      ]

  -- A record's key has a first record, unless it was seen before.
  first_records-mem :
      (seen : List Bytes) (records : List Rr) {rr : Rr}
      → Memᴰ rr records
      → contains (key_of env rr) seen ≡ false
      → (r : Rr) × Memᴰ r (first_records env seen records) × (key_of env r ≡ key_of env rr)
  first_records-mem seen [] m new = elim m [ ]
  first_records-mem seen (r ∷ records) {rr} (Memᴰ.head e) new =
      let same = ap (key_of env) (sym e) in
      rw (ap (λ k. contains k seen) same ∙ new) (r, Memᴰ.head refl, same)
  first_records-mem seen (r ∷ records) {rr} (Memᴰ.tail m) new =
      let key = key_of env r in
      elim (Bool-cases (contains key seen)) [
        | inl known ↦ rw known (first_records-mem seen records m new)
        | inr unseen ↦ elim (Bool-cases (equal key (key_of env rr))) [
          | inl same ↦ rw unseen (r, Memᴰ.head refl, (equal_iff key (key_of env rr)).0 same)
          | inr other ↦
              let (first, found, same) =
                first_records-mem (seen ++ key ∷ []) records m
                  (rw (contains-snoc (key_of env rr) key seen, new, other) refl) in
              rw unseen (first, Memᴰ.tail found, same)
        ]
      ]

  -- A set of a section for a record: its name and its type are the record's, and it holds its data.
  pub record IsSetFor (rr : Rr) (rrsets : List RrSet) : Type 0 where
    pub set : RrSet
    pub member : Memᴰ set rrsets
    pub name : set.name ≡ (header rr).name
    pub type : set.type ≡ env.dns.type_to_string (header rr).rrtype
    pub holds : Memᴰ (record_string rr) set.values

  group_key-eq :
      (left right : Rr)
      → HasPlainTypes
      → key_of env left ≡ key_of env right
      → ((header left).name ≡ (header right).name)
        × (env.dns.type_to_string (header left).rrtype
            ≡ env.dns.type_to_string (header right).rrtype)
  group_key-eq left right plain e =
      append-eq-last b'|' (header left).name (header right).name _ _ (plain (header left).rrtype)
        (plain (header right).rrtype) e

  -- If no type has a bar in its name, every record of a section is found in a set of its name and
  -- type.
  pub rrsets_from_section-IsSetFor :
      (section : String) (records : List Rr) {rr : Rr}
      → HasPlainTypes
      → Memᴰ rr records
      → IsSetFor rr (rrsets_from_section env section records)
  rrsets_from_section-IsSetFor section records {rr} plain m =
      let (first, found, same) = first_records-mem [] records m (unfold contains in refl) in
      let (name, type) = group_key-eq first rr plain same in
      rw (rrsets_from_section-first_records env section records) (record {
        set = set_of env section records first;
        member = mem-map (set_of env section records) found;
        name = name;
        type = type;
        holds = data_of-mem (key_of env first) records m (sym same);
      })

  has_type-mem :
      (records : List Rr) (qname qtype : Bytes)
      → has_type env records qname qtype ≡ true
      → (rr : Rr) × Memᴰ rr records
        × (equal_fold env.unicode (header rr).name qname ≡ true)
        × (env.dns.type_to_string (header rr).rrtype ≡ qtype)
  unfolding has_type matches_type
  has_type-mem records qname qtype e =
      let (rr, m, h) = any-mem (matches_type env qname qtype) records e in
      (
        rr,
        m,
        ground arith,
        (equal_iff (env.dns.type_to_string (header rr).rrtype) qtype).0 (ground arith),
      )

  -- The header of a record names the type of its data.
  abbrev pub IsTyped : Rr → Type 0
  IsTyped (Rr.a h _) = env.dns.type_to_string h.rrtype ≡ codes "A"
  IsTyped (Rr.aaaa h _) = env.dns.type_to_string h.rrtype ≡ codes "AAAA"
  IsTyped (Rr.ns h _) = env.dns.type_to_string h.rrtype ≡ codes "NS"
  IsTyped (Rr.cname h _) = env.dns.type_to_string h.rrtype ≡ codes "CNAME"
  IsTyped (Rr.soa h _ _ _ _ _ _ _) = env.dns.type_to_string h.rrtype ≡ codes "SOA"
  IsTyped (Rr.other h _) = Unit

  -- The target that is found is that of a CNAME record for the name.
  first_cname-mem :
      (records : List Rr) (qname : Bytes)
      → equal (first_cname env records qname) [] ≡ false
      → (h : Header) × Memᴰ (Rr.cname h (first_cname env records qname)) records
        × (equal_fold env.unicode h.name qname ≡ true)
  unfolding first_cname
  first_cname-mem [] qname e = unfold equal in cc
  first_cname-mem (Rr.cname h target ∷ records) qname e =
      elim (Bool-cases (equal_fold env.unicode h.name qname)) [
        | inl fits ↦ rw fits (h, Memᴰ.head refl, fits)
        | inr other ↦
            let (found, m, f) = first_cname-mem records qname (rw other at e) in
            rw other (found, Memᴰ.tail m, f)
      ]
  first_cname-mem (Rr.a h ip ∷ records) qname e =
      let (found, m, f) = first_cname-mem records qname e in (found, Memᴰ.tail m, f)
  first_cname-mem (Rr.aaaa h ip ∷ records) qname e =
      let (found, m, f) = first_cname-mem records qname e in (found, Memᴰ.tail m, f)
  first_cname-mem (Rr.ns h target ∷ records) qname e =
      let (found, m, f) = first_cname-mem records qname e in (found, Memᴰ.tail m, f)
  first_cname-mem (Rr.soa h _ _ _ _ _ _ _ ∷ records) qname e =
      let (found, m, f) = first_cname-mem records qname e in (found, Memᴰ.tail m, f)
  first_cname-mem (Rr.other h text ∷ records) qname e =
      let (found, m, f) = first_cname-mem records qname e in (found, Memᴰ.tail m, f)

  -- A set of the name and the type that were asked, with data.
  pub record HasSet (qname qtype : Bytes) (rrsets : List RrSet) : Type 0 where
    pub set : RrSet
    pub member : Memᴰ set rrsets
    pub name : equal_fold env.unicode set.name qname ≡ true
    pub type : set.type ≡ qtype
    pub value : Bytes
    pub holds : Memᴰ value set.values

  -- A CNAME set of the name that was asked, with a target among its data.
  pub record HasAlias (qname target : Bytes) (rrsets : List RrSet) : Type 0 where
    pub set : RrSet
    pub member : Memᴰ set rrsets
    pub name : equal_fold env.unicode set.name qname ≡ true
    pub type : set.type ≡ codes "CNAME"
    pub holds : Memᴰ target set.values

  pub has_type-HasSet :
      (records : List Rr) (qname qtype : Bytes)
      → HasPlainTypes
      → has_type env records qname qtype ≡ true
      → HasSet qname qtype (rrsets_from_section env "answer" records)
  has_type-HasSet records qname qtype plain e =
      let (rr, m, fits, type) = has_type-mem records qname qtype e in
      let s = rrsets_from_section-IsSetFor "answer" records plain m in
      record {
        set = s.set;
        member = s.member;
        name = ap (λ n. equal_fold env.unicode n qname) s.name ∙ fits;
        type = s.type ∙ type;
        value = record_string rr;
        holds = s.holds;
      }

  pub first_cname-HasAlias :
      (records : List Rr) (qname : Bytes)
      → HasPlainTypes
      → All IsTyped records
      → equal (first_cname env records qname) [] ≡ false
      → HasAlias qname (first_cname env records qname) (rrsets_from_section env "answer" records)
  unfolding header record_string
  first_cname-HasAlias records qname plain typed e =
      let (h, m, fits) = first_cname-mem records qname e in
      let s = rrsets_from_section-IsSetFor "answer" records plain m in
      record {
        set = s.set;
        member = s.member;
        name = ap (λ n. equal_fold env.unicode n qname) s.name ∙ fits;
        type = s.type ∙ All-mem IsTyped records typed m;
        holds = s.holds;
      }
