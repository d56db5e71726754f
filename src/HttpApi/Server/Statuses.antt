-- ===== src/HttpApi/Server/Statuses.antt =====
-- The answers of createTrace in backend/internal/httpapi/server.go, by their status.
use dnswatcher.Prelude.{
  ℕ, ◌≡◌, refl, ◌⊎◌, inl, inr, Bool, true, false, Bool-cases, Option, none, some, ltb, codes, equal,
  Memᴰ, List, [], ◌∷◌,
}
use dnswatcher.Strings.{starts_with}
use dnswatcher.Contracts.{TraceRequest}
use dnswatcher.Net.{Prefix}
use dnswatcher.HttpApi.Limiters.{Settings, ServerState, ask_limiter}
use dnswatcher.HttpApi.Server.{
  HttpRequest, ServerLibs, TracerReply, traced_ok, policy_failed, other_failed, Phase, Response,
  answered, limited, allowed, running, arrive, ask, acquire, finish, advance, answer_decoded,
  write_reply, create_trace,
}

-- An answer of the service: the client is asked to retry exactly where it was too fast or the service
-- too busy, and the status is one of six.
pub data IsStated : Response → Type 0 where
  final :
      {response : Response}
      → response.retry_after ≡ none
      → Memᴰ response.status (200 ∷ 400 ∷ 405 ∷ 415 ∷ 500 ∷ [])
      → IsStated response
  retry :
      {response : Response} (seconds : ℕ)
      → response.retry_after ≡ some seconds
      → Memᴰ seconds (60 ∷ 5 ∷ [])
      → response.status ≡ 429
      → IsStated response

-- An answer, which is stated.
abbrev pub Ends : Phase → Type 0
Ends phase = (response : Response) × (phase ≡ answered response) × IsStated response

write_reply-IsStated : (reply : TracerReply) → IsStated (write_reply reply)
unfolding write_reply
write_reply-IsStated (traced_ok result) = final refl (Memᴰ.head refl)
write_reply-IsStated (policy_failed err) = final refl (Memᴰ.tail (Memᴰ.head refl))
write_reply-IsStated (other_failed text) =
    final refl (Memᴰ.tail (Memᴰ.tail (Memᴰ.tail (Memᴰ.tail (Memᴰ.head refl)))))

module _ (libs : ServerLibs) (cfg : Settings libs.rate) (trusted : List Prefix) (now later : ℕ)
    (tracer : TraceRequest → TracerReply) where
  answer_decoded-IsStated :
      (body : Option (TraceRequest × Bool)) → IsStated (answer_decoded libs cfg trusted tracer body)
  unfolding answer_decoded
  answer_decoded-IsStated none = final refl (Memᴰ.tail (Memᴰ.head refl))
  answer_decoded-IsStated (some (decoded, false)) = final refl (Memᴰ.tail (Memᴰ.head refl))
  answer_decoded-IsStated (some (decoded, true)) = write_reply-IsStated (tracer decoded)

  -- Each stretch answers the request or brings it to the next phase.
  abbrev EndsOr : Phase → Phase → Type 0
  EndsOr next phase = Ends phase ⊎ (phase ≡ next)

  arrive-Ends :
      (req : HttpRequest) (state : ServerState libs.rate)
      → Ends (arrive libs cfg trusted now req state).0
        ⊎ ((index : ℕ) × ((arrive libs cfg trusted now req state).0 ≡ limited index))
  unfolding arrive
  arrive-Ends req state = elim (Bool-cases (equal req.method (codes "POST"))) [
    | inr other ↦ rw other (inl (_, refl, final refl (Memᴰ.tail (Memᴰ.tail (Memᴰ.head refl)))))
    | inl post ↦ elim (Bool-cases (starts_with req.content_type (codes "application/json"))) [
      | inr other ↦
          rw (post, other)
            (inl (_, refl, final refl (Memᴰ.tail (Memᴰ.tail (Memᴰ.tail (Memᴰ.head refl))))))
      | inl json ↦ rw (post, json) (inr (_, refl))
    ]
  ]

  ask-Ends :
      (index : ℕ) (state : ServerState libs.rate)
      → EndsOr allowed (ask libs cfg trusted later index state).0
  unfolding ask
  ask-Ends index state = elim (Bool-cases (ask_limiter libs.rate later index state).0) [
    | inl ok ↦ rw ok (inr refl)
    | inr fast ↦ rw fast (inl (_, refl, retry 60 refl (Memᴰ.head refl) refl))
  ]

  acquire-Ends : (state : ServerState libs.rate) → EndsOr running (acquire libs cfg trusted state).0
  unfolding acquire
  acquire-Ends state = elim (Bool-cases (ltb state.in_flight cfg.max_concurrent)) [
    | inl room ↦ rw room (inr refl)
    | inr busy ↦ rw busy (inl (_, refl, retry 5 refl (Memᴰ.tail (Memᴰ.head refl)) refl))
  ]

  abbrev advanced : HttpRequest → Phase × ServerState libs.rate → Phase × ServerState libs.rate
  advanced req at = advance libs cfg trusted later tracer req at.0 at.1

  -- An answer stays.
  advanced-Ends :
      (req : HttpRequest) (at : Phase × ServerState libs.rate)
      → Ends at.0
      → Ends (advanced req at).0
  unfolding advance
  advanced-Ends req (phase, state) (response, same, stated) = rw same (response, refl, stated)

  running-Ends :
      (req : HttpRequest) (at : Phase × ServerState libs.rate)
      → EndsOr running at.0
      → Ends (advanced req at).0
  running-Ends req at (inl ended) = advanced-Ends req at ended
  running-Ends req (phase, state) (inr same) = rw same (
      unfold advance finish in
      (_, refl, answer_decoded-IsStated (libs.decode cfg.body_limit req.body)))

  allowed-Ends :
      (req : HttpRequest) (at : Phase × ServerState libs.rate)
      → EndsOr allowed at.0
      → Ends (advanced req (advanced req at)).0
  allowed-Ends req at (inl ended) = advanced-Ends req (advanced req at) (advanced-Ends req at ended)
  allowed-Ends req (phase, state) (inr same) =
      running-Ends req (advanced req (phase, state))
        (rw same (unfold advance in acquire-Ends state))

  limited-Ends :
      (req : HttpRequest) (at : Phase × ServerState libs.rate)
      → Ends at.0 ⊎ ((index : ℕ) × (at.0 ≡ limited index))
      → Ends (advanced req (advanced req (advanced req at))).0
  limited-Ends req at (inl ended) =
      allowed-Ends req (advanced req at) (inl (advanced-Ends req at ended))
  limited-Ends req (phase, state) (inr (index, same)) =
      allowed-Ends req (advanced req (phase, state))
        (rw same (unfold advance in ask-Ends index state))

  -- A request that runs alone is answered. Where the answer asks to retry, its status is 429 and it
  -- says 60 or 5 seconds; else the status is 200, 400, 405, 415 or 500.
  pub create_trace-Ends :
      (req : HttpRequest) (state : ServerState libs.rate)
      → Ends (create_trace libs cfg trusted now later tracer req state).0
  unfolding create_trace
  create_trace-Ends req state =
      limited-Ends req (arrive libs cfg trusted now req state) (arrive-Ends req state)
