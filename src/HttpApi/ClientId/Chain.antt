-- ===== src/HttpApi/ClientId/Chain.antt =====
-- The client of a chain of hops is the last one that is not trusted.
use mathlib.Core.List.{append_assoc}
use dnswatcher.Prelude.{
  ◌≡◌, refl, ap, sym, ◌∙◌, ◌↔◌, true, false, List, [], ◌∷◌, ◌++◌, Option, none, some, arith, All,
  Bool-cases, inl, inr,
}
use dnswatcher.Net.{Addr, Prefix}
use dnswatcher.HttpApi.ClientId.{addr_is_trusted, client, last_untrusted, client_from_trusted_chain}

-- A hop that is not trusted, with trusted hops only behind it.
pub record IsLastUntrusted (trusted : List Prefix) (hops : List Addr) (addr : Addr) : Type 0 where
  pub front : List Addr
  pub back : List Addr
  pub splits : hops ≡ front ++ addr ∷ back
  pub untrusted : addr_is_trusted addr trusted ≡ false
  pub behind : All (λ hop. addr_is_trusted hop trusted ≡ true) back

-- What the loop has found in the hops that it has judged.
abbrev Judged : List Prefix → List Addr → Option Addr → Type 0
Judged trusted hops none = All (λ hop. addr_is_trusted hop trusted ≡ true) hops
Judged trusted hops (some addr) = IsLastUntrusted trusted hops addr

module _ (trusted : List Prefix) where
  Judged-cons :
      (hop : Addr) (hops : List Addr) (found : Option Addr)
      → last_untrusted hops trusted ≡ found
      → Judged trusted hops found
      → Judged trusted (hop ∷ hops) (last_untrusted (hop ∷ hops) trusted)
  unfolding last_untrusted
  Judged-cons hop hops (some addr) e j = rw e (record {
    front = hop ∷ j.front;
    back = j.back;
    splits = ap (◌∷◌ hop) j.splits;
    untrusted = j.untrusted;
    behind = j.behind;
  })
  Judged-cons hop hops none e j = rw e (elim (Bool-cases (addr_is_trusted hop trusted)) [
    | inl known ↦ rw known (known, j)
    | inr other ↦
        rw other (record { front = []; back = hops; splits = refl; untrusted = other; behind = j })
  ])

  last_untrusted-Judged : (hops : List Addr) → Judged trusted hops (last_untrusted hops trusted)
  last_untrusted-Judged [] = unfold last_untrusted in tt
  last_untrusted-Judged (hop ∷ hops) =
      Judged-cons hop hops (last_untrusted hops trusted) refl (last_untrusted-Judged hops)

  last_untrusted-All :
      (hops : List Addr)
      → All (λ hop. addr_is_trusted hop trusted ≡ true) hops
      → last_untrusted hops trusted ≡ none
  unfolding last_untrusted
  last_untrusted-All [] h = refl
  last_untrusted-All (hop ∷ hops) (h, hs) = rw (last_untrusted-All hops hs, h)

  last_untrusted_split :
      (front back : List Addr) (addr : Addr)
      → addr_is_trusted addr trusted ≡ false
      → All (λ hop. addr_is_trusted hop trusted ≡ true) back
      → last_untrusted (front ++ addr ∷ back) trusted ≡ some addr
  unfolding last_untrusted
  last_untrusted_split [] back addr u b = rw (last_untrusted-All back b, u)
  last_untrusted_split (hop ∷ front) back addr u b = rw (last_untrusted_split front back addr u b)

  client_of_found :
      (hops : List Addr) (addr : Addr)
      → last_untrusted hops trusted ≡ some addr
      → client_from_trusted_chain hops trusted ≡ client addr
  unfolding client_from_trusted_chain
  client_of_found [] addr e = unfold last_untrusted in cc
  client_of_found (hop ∷ hops) addr e = rw e

  found_of_client :
      (hops : List Addr) (addr : Addr)
      → client_from_trusted_chain hops trusted ≡ client addr
      → last_untrusted hops trusted ≡ some addr
  unfolding client_from_trusted_chain
  found_of_client [] addr e = cc
  found_of_client (hop ∷ hops) addr e = ground arith

  -- The chain's client is exactly the last hop that is not trusted.
  pub client_from_trusted_chain-client :
      (hops : List Addr) (addr : Addr)
      → (client_from_trusted_chain hops trusted ≡ client addr) ↔ IsLastUntrusted trusted hops addr
  client_from_trusted_chain-client hops addr = (
    λ e. rw (found_of_client hops addr e) at (last_untrusted-Judged hops),
    λ j.
        client_of_found hops addr
          (rw j.splits (last_untrusted_split j.front j.back addr j.untrusted j.behind)),
  )

  -- Hops in front of a chain that names a client do not change it.
  pub client_from_trusted_chain-append :
      (extra hops : List Addr) {addr : Addr}
      → client_from_trusted_chain hops trusted ≡ client addr
      → client_from_trusted_chain (extra ++ hops) trusted ≡ client addr
  client_from_trusted_chain-append extra hops {addr} e =
      let j = (client_from_trusted_chain-client hops addr).0 e in
      (client_from_trusted_chain-client (extra ++ hops) addr).1 (record {
        front = extra ++ j.front;
        back = j.back;
        splits = ap (◌++◌ extra) j.splits ∙ sym (append_assoc extra j.front (addr ∷ j.back));
        untrusted = j.untrusted;
        behind = j.behind;
      })
