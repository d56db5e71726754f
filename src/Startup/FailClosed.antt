-- ===== src/Startup/FailClosed.antt =====
-- The process starts exactly with the proxies that its configuration names.
use dnswatcher.Prelude.{
  ◌≡◌, refl, ap, sym, ◌↔◌, ◌⊎◌, inl, inr, Bool-cases, Option-cases, true, false, List, [], ◌∷◌,
  none, some, is_nil, Bytes,
}
use dnswatcher.Strings.{Unicode, trim_space}
use dnswatcher.Net.{Addr, Prefix, Texts, bit_len, prefix_from}
use dnswatcher.HttpApi.ClientId.{parse_trusted_proxy_cidrs, canonicalize_trusted_prefix}
use dnswatcher.Startup.{env_csv, unless_invalid, trusted_proxies}

module _ (unicode : Unicode) (texts : Texts) where
  -- A text that is a prefix, or an address, which is a prefix of one.
  abbrev pub Denotes : Bytes → Prefix → Type 0
  Denotes raw prefix =
      (texts.parse_prefix raw ≡ some prefix)
      ⊎ ((addr : Addr) × (texts.parse_prefix raw ≡ none)
          × (texts.parse_addr raw ≡ some addr)
          × (prefix ≡ prefix_from addr (bit_len addr)))

  -- The canonical prefixes of a list of texts, of which the blank ones count for nothing.
  pub data AreParsed : List Bytes → List Prefix → Type 0 where
    nothing : AreParsed [] []
    blank :
        {value : Bytes} {values : List Bytes} {prefixes : List Prefix}
        → is_nil (trim_space unicode value) ≡ true
        → AreParsed values prefixes
        → AreParsed (value ∷ values) prefixes
    parsed :
        {value : Bytes} {values : List Bytes} {prefix : Prefix} {prefixes : List Prefix}
        → is_nil (trim_space unicode value) ≡ false
        → Denotes (trim_space unicode value) prefix
        → AreParsed values prefixes
        → AreParsed (value ∷ values) (canonicalize_trusted_prefix prefix ∷ prefixes)

  AreParsed-parse :
      (values : List Bytes) {prefixes : List Prefix}
      → AreParsed values prefixes
      → parse_trusted_proxy_cidrs unicode texts values ≡ (prefixes, [])
  unfolding parse_trusted_proxy_cidrs
  AreParsed-parse [] nothing = refl
  AreParsed-parse (value ∷ values) (blank empty rest) = rw (empty, AreParsed-parse values rest)
  AreParsed-parse (value ∷ values) (parsed full (inl given) rest) =
      rw (full, given, AreParsed-parse values rest)
  AreParsed-parse (value ∷ values) (parsed full (inr (addr, bare, given, single)) rest) =
      rw (full, bare, given, single, AreParsed-parse values rest)

  parse-AreParsed :
      (values : List Bytes)
      → (parse_trusted_proxy_cidrs unicode texts values).1 ≡ []
      → AreParsed values (parse_trusted_proxy_cidrs unicode texts values).0
  unfolding parse_trusted_proxy_cidrs
  parse-AreParsed [] e = nothing
  parse-AreParsed (value ∷ values) e =
      let raw = trim_space unicode value in
      elim (Bool-cases (is_nil raw)) [
        | inl empty ↦ rw empty (blank empty (parse-AreParsed values (rw empty at e)))
        | inr full ↦ elim (Option-cases (texts.parse_prefix raw)) [
          | inr (prefix, given) ↦
              rw (full, given)
                (parsed full (inl given) (parse-AreParsed values (rw (full, given) at e)))
          | inl bare ↦ elim (Option-cases (texts.parse_addr raw)) [
            | inl failed ↦ cc
            | inr (addr, given) ↦
                rw (full, bare, given)
                  (parsed full (inr (addr, bare, given, refl))
                    (parse-AreParsed values (rw (full, bare, given) at e)))
          ]
        ]
      ]

  unless_invalid-some :
      (result : List Prefix × List Bytes) (prefixes : List Prefix)
      → (unless_invalid unicode result ≡ some prefixes) ↔ (result ≡ (prefixes, []))
  unless_invalid-some (found, []) prefixes = (λ e. cc, λ e. cc)
  unless_invalid-some (found, text ∷ invalid) prefixes = (λ e. cc, λ e. cc)

  pub trusted_proxies-AreParsed :
      (raw : Bytes) (prefixes : List Prefix)
      → (trusted_proxies unicode texts raw ≡ some prefixes)
        ↔ AreParsed (env_csv unicode raw) prefixes
  unfolding trusted_proxies
  trusted_proxies-AreParsed raw prefixes =
      let values = env_csv unicode raw in
      let (forth, back) =
        unless_invalid-some (parse_trusted_proxy_cidrs unicode texts values) prefixes in
      (
        λ e.
            let whole = forth e in
            let found : (parse_trusted_proxy_cidrs unicode texts values).0 ≡ prefixes =
              ap (λ r. r.0) whole in
            rw (sym found) (parse-AreParsed values (ap (λ r. r.1) whole)),
        λ named. back (AreParsed-parse values named),
      )
