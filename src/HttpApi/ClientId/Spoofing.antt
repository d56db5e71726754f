-- ===== src/HttpApi/ClientId/Spoofing.antt =====
-- Who decides the client's key.
use mathlib.Core.List.{append_assoc}
use dnswatcher.Prelude.{
  ◌≡◌, refl, ap, sym, ◌∙◌, ◌⊎◌, true, false, List, [], ◌∷◌, ◌++◌, Option, none, some, arith, inl,
  inr, Bytes, >>=-eq-some,
}
use dnswatcher.Strings.{Unicode, split}
use dnswatcher.Net.{Addr, Prefix, Texts, is_valid, same_addr}
use dnswatcher.HttpApi.ClientId.{
  Source, Disposition, ClientIdentity, Header, ChainResult, addr_is_trusted, no_hops, all_trusted,
  client, has_forwarded_headers, canonical_addr, client_from_trusted_chain, peer_identity,
  parse_parts, parse_x_forwarded_for_addrs, parse_forwarded_for_addrs, choose, choose_parsed,
  resolve_client_identity,
}
use dnswatcher.HttpApi.ClientId.Chain.{
  IsLastUntrusted, client_from_trusted_chain-client, client_from_trusted_chain-append,
}

module _ (unicode : Unicode) (texts : Texts) where
  abbrev resolve : Bytes → Header → List Prefix → ClientIdentity
  resolve = resolve_client_identity unicode texts

  -- From a peer that is not a trusted proxy, the key is the peer's own, whatever the headers say.
  pub resolve_client_identity-untrusted :
      (remote : Bytes) (header : Header) (trusted : List Prefix)
      → addr_is_trusted (peer_identity unicode texts remote).0 trusted ≡ false
      → (resolve remote header trusted).address ≡ (peer_identity unicode texts remote).1
  unfolding resolve_client_identity
  resolve_client_identity-untrusted remote header trusted h = ground arith

  -- The client of a header's hops, as an identity shows it.
  abbrev Names : List Prefix → Option (List Addr) → Bytes → Type 0
  Names trusted none address = ⊥
  Names trusted (some hops) address =
      (addr : Addr) × IsLastUntrusted trusted hops addr
      × (address ≡ canonical_addr unicode texts addr)

  -- What an honored identity rests on.
  pub record IsHonored (remote : Bytes) (header : Header) (trusted : List Prefix)
      (id : ClientIdentity) : Type 0 where
    pub peer_trusted : addr_is_trusted (peer_identity unicode texts remote).0 trusted ≡ true
    pub named :
        Names trusted (parse_x_forwarded_for_addrs unicode texts header.x_forwarded_for) id.address
        ⊎ Names trusted (parse_forwarded_for_addrs unicode texts header.forwarded) id.address

  choose-client :
      (key : Bytes) (f x : ChainResult)
      → (choose unicode texts key f x).disposition ≡ Disposition.honored
      → ((addr : Addr) × (x ≡ client addr)
          × ((choose unicode texts key f x).address ≡ canonical_addr unicode texts addr))
        ⊎ ((addr : Addr) × (f ≡ client addr)
            × ((choose unicode texts key f x).address ≡ canonical_addr unicode texts addr))
  unfolding choose
  choose-client key (client a) (client b) h =
      let same : same_addr a b ≡ true = ground arith in rw same (inl (b, refl, refl))
  choose-client key (client a) no_hops h = inr (a, refl, refl)
  choose-client key (client a) all_trusted h = inr (a, refl, refl)
  choose-client key no_hops (client b) h = inl (b, refl, refl)
  choose-client key all_trusted (client b) h = inl (b, refl, refl)
  choose-client key no_hops no_hops h = cc
  choose-client key no_hops all_trusted h = cc
  choose-client key all_trusted no_hops h = cc
  choose-client key all_trusted all_trusted h = cc

  choose_parsed-named :
      (key : Bytes) (trusted : List Prefix) (f x : Option (List Addr))
      → (choose_parsed unicode texts key trusted f x).disposition ≡ Disposition.honored
      → Names trusted x (choose_parsed unicode texts key trusted f x).address
        ⊎ Names trusted f (choose_parsed unicode texts key trusted f x).address
  unfolding choose_parsed
  choose_parsed-named key trusted (some f) (some x) h =
      elim (choose-client key (client_from_trusted_chain f trusted)
        (client_from_trusted_chain x trusted) h) [
          | inl (addr, e, k) ↦ inl (addr, (client_from_trusted_chain-client trusted x addr).0 e, k)
          | inr (addr, e, k) ↦ inr (addr, (client_from_trusted_chain-client trusted f addr).0 e, k)
        ]
  choose_parsed-named key trusted (some f) none h = cc
  choose_parsed-named key trusted none x h = cc

  -- A header is honored only from a trusted peer, and the key is then the last hop of one of the
  -- two headers that is not trusted.
  pub resolve_client_identity-IsHonored :
      (remote : Bytes) (header : Header) (trusted : List Prefix)
      → (resolve remote header trusted).disposition ≡ Disposition.honored
      → IsHonored remote header trusted (resolve remote header trusted)
  unfolding resolve_client_identity
  resolve_client_identity-IsHonored remote header trusted h =
      let key = (peer_identity unicode texts remote).1 in
      let f = parse_forwarded_for_addrs unicode texts header.forwarded in
      let x = parse_x_forwarded_for_addrs unicode texts header.x_forwarded_for in
      let present : has_forwarded_headers header ≡ true = ground arith in
      let valid : is_valid (peer_identity unicode texts remote).0 ≡ true = ground arith in
      let known : addr_is_trusted (peer_identity unicode texts remote).0 trusted ≡ true =
        ground arith in
      record {
        peer_trusted = known;
        named =
            rw (present, valid, known)
              (choose_parsed-named key trusted f x (rw (present, valid, known) at h));
      }

  parse_x_forwarded_for_addrs-append :
      (extra values : List Bytes) {more hops : List Addr}
      → parse_x_forwarded_for_addrs unicode texts extra ≡ some more
      → parse_x_forwarded_for_addrs unicode texts values ≡ some hops
      → parse_x_forwarded_for_addrs unicode texts (extra ++ values) ≡ some (more ++ hops)
  unfolding parse_x_forwarded_for_addrs
  parse_x_forwarded_for_addrs-append [] values {more} e k = let empty : more ≡ [] = cc in rw empty k
  parse_x_forwarded_for_addrs-append (value ∷ extra) values {more} {hops} e k =
      let (first, parsed, e') = >>=-eq-some (parse_parts unicode texts (split value b',')) _ e in
      let (later, rest, joined) =
        >>=-eq-some (parse_x_forwarded_for_addrs unicode texts extra) _ e' in
      let whole : more ≡ first ++ later = cc in
      rw (
        parsed,
        parse_x_forwarded_for_addrs-append extra values rest k,
        whole,
        append_assoc first later hops,
      )

  choose-source :
      (key : Bytes) (f x : ChainResult)
      → (choose unicode texts key f x).source ≡ Source.x_forwarded_for
      → (addr : Addr) × (x ≡ client addr)
  unfolding choose
  choose-source key f (client b) h = (b, refl)
  choose-source key (client a) no_hops h = cc
  choose-source key (client a) all_trusted h = cc
  choose-source key no_hops no_hops h = cc
  choose-source key no_hops all_trusted h = cc
  choose-source key all_trusted no_hops h = cc
  choose-source key all_trusted all_trusted h = cc

  choose_parsed-append :
      (key : Bytes) (trusted : List Prefix) (f : Option (List Addr)) (more hops : List Addr)
      → (choose_parsed unicode texts key trusted f (some hops)).source ≡ Source.x_forwarded_for
      → choose_parsed unicode texts key trusted f (some (more ++ hops))
        ≡ choose_parsed unicode texts key trusted f (some hops)
  unfolding choose_parsed
  choose_parsed-append key trusted none more hops h = refl
  choose_parsed-append key trusted (some f) more hops h =
      let (addr, e) =
        choose-source key (client_from_trusted_chain f trusted)
          (client_from_trusted_chain hops trusted) h in
      rw (client_from_trusted_chain-append trusted more hops e, e)

  parsed_of_source :
      (key : Bytes) (trusted : List Prefix) (f x : Option (List Addr))
      → (choose_parsed unicode texts key trusted f x).source ≡ Source.x_forwarded_for
      → (hops : List Addr) × (x ≡ some hops)
  unfolding choose_parsed
  parsed_of_source key trusted f (some hops) h = (hops, refl)
  parsed_of_source key trusted none none h = cc
  parsed_of_source key trusted (some f) none h = cc

  has_forwarded_headers-append :
      (forwarded extra values : List Bytes)
      → has_forwarded_headers (record { forwarded = forwarded; x_forwarded_for = values }) ≡ true
      → has_forwarded_headers (record { forwarded = forwarded; x_forwarded_for = extra ++ values })
        ≡ true
  unfolding has_forwarded_headers
  has_forwarded_headers-append forwarded [] values h = h
  has_forwarded_headers-append forwarded (value ∷ extra) values h = ground arith

  -- Where a header is there and the peer is trusted, the parsed headers decide.
  resolve_of_trusted :
      (remote : Bytes) (header : Header) (trusted : List Prefix)
      → has_forwarded_headers header ≡ true
      → is_valid (peer_identity unicode texts remote).0 ≡ true
      → addr_is_trusted (peer_identity unicode texts remote).0 trusted ≡ true
      → resolve remote header trusted
        ≡ choose_parsed unicode texts
            (peer_identity unicode texts remote).1
            trusted
            (parse_forwarded_for_addrs unicode texts header.forwarded)
            (parse_x_forwarded_for_addrs unicode texts header.x_forwarded_for)
  unfolding resolve_client_identity
  resolve_of_trusted remote header trusted present valid known = rw (present, valid, known)

  record IsTrustedRequest (remote : Bytes) (header : Header) (trusted : List Prefix) : Type 0 where
    present : has_forwarded_headers header ≡ true
    valid : is_valid (peer_identity unicode texts remote).0 ≡ true
    known : addr_is_trusted (peer_identity unicode texts remote).0 trusted ≡ true

  resolve-IsTrustedRequest :
      (remote : Bytes) (header : Header) (trusted : List Prefix)
      → (resolve remote header trusted).source ≡ Source.x_forwarded_for
      → IsTrustedRequest remote header trusted
  unfolding resolve_client_identity
  resolve-IsTrustedRequest remote header trusted h = ground arith

  -- Values that a client puts in front of X-Forwarded-For do not change the identity that a
  -- trusted proxy's value gives, if they parse.
  pub resolve_client_identity-append :
      (remote : Bytes) (forwarded extra values : List Bytes) (trusted : List Prefix)
      {more : List Addr}
      → parse_x_forwarded_for_addrs unicode texts extra ≡ some more
      → (resolve remote (record { forwarded = forwarded; x_forwarded_for = values }) trusted).source
        ≡ Source.x_forwarded_for
      → resolve remote (record { forwarded = forwarded; x_forwarded_for = extra ++ values }) trusted
        ≡ resolve remote (record { forwarded = forwarded; x_forwarded_for = values }) trusted
  resolve_client_identity-append remote forwarded extra values trusted {more} e h =
      let header : Header = record { forwarded = forwarded; x_forwarded_for = values } in
      let t = resolve-IsTrustedRequest remote header trusted h in
      let decided = resolve_of_trusted remote header trusted t.present t.valid t.known in
      let key = (peer_identity unicode texts remote).1 in
      let f = parse_forwarded_for_addrs unicode texts forwarded in
      let from_xff = rw decided at h in
      let (hops, parsed) = parsed_of_source key trusted f _ from_xff in
      resolve_of_trusted remote (record header { x_forwarded_for = extra ++ values }) trusted
        (has_forwarded_headers-append forwarded extra values t.present) t.valid t.known
      ∙ ap (choose_parsed unicode texts key trusted f)
          (parse_x_forwarded_for_addrs-append extra values e parsed)
      ∙ choose_parsed-append key trusted f more hops (rw parsed at from_xff)
      ∙ ap (choose_parsed unicode texts key trusted f) (sym parsed)
      ∙ sym decided
