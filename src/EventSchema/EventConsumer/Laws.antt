-- ===== src/EventSchema/EventConsumer/Laws.antt =====
-- What becomes of a message.
use ryd_trip.Prelude.{
  ℕ, zero, suc, ◌+◌, ◌-◌, ◌≤◌, ◌<◌, ◌≡◌, refl, ◌∙◌, sym, ap, subst, ◌⊎◌, inl, inr, String, none,
  some, ◌∷◌, arith,
}
use ryd_trip.Exec.{Result, ok, err}
use ryd_trip.EventSchema.{EventEnvelope}
use ryd_trip.EventSchema.EventConsumer.{
  RetryOptions, DlqRecord, EachMessagePayload, Consumer, text_value, dlq_record, handler_failed,
  park_on_dlq, ensure_dlq_topic, sleep, attempts_from, each_message,
}

module _ {S P E : Type 0} (group_id : String) (parse : String → Result String (EventEnvelope P))
    (jitter : ℕ → ℕ) (message : E → String)
    (handler : EventEnvelope P → S → Result E (Unit {0}) × S) (retry : RetryOptions) where
  -- The handler succeeds at the k-th attempt and at none before.
  pub data SucceedsAt (envelope : EventEnvelope P) : ℕ → S → S → Type 0 where
    first : {s s' : S} → handler envelope s ≡ (ok tt, s') → SucceedsAt envelope 1 s s'
    later :
        {k : ℕ} {s s₁ s' : S} (e : E)
        → handler envelope s ≡ (err e, s₁)
        → SucceedsAt envelope k s₁ s'
        → SucceedsAt envelope (suc k) s s'

  -- The handler throws k times in a row, the last time with the error `e`.
  pub data FailsAll (envelope : EventEnvelope P) (e : E) : ℕ → S → S → Type 0 where
    last : {s s' : S} → handler envelope s ≡ (err e, s') → FailsAll envelope e 1 s s'
    again :
        {k : ℕ} {s s₁ s' : S} (x : E)
        → handler envelope s ≡ (err x, s₁)
        → FailsAll envelope e k s₁ s'
        → FailsAll envelope e (suc k) s s'

  abbrev attempts : ℕ → ℕ → EachMessagePayload → EventEnvelope P → Consumer S P → Consumer S P
  attempts = attempts_from group_id parse jitter message handler retry

  abbrev pub failure_record : EachMessagePayload → EventEnvelope P → E → Consumer S P → DlqRecord P
  failure_record payload envelope e c =
      dlq_record group_id parse jitter message handler retry payload handler_failed (some envelope)
        none retry.max_attempts (message e) c.now

  -- What a consumer has made of a message in `n` attempts: it was delivered, and nothing was parked;
  -- or every attempt threw, and one record was parked.
  pub data Handled (payload : EachMessagePayload) (envelope : EventEnvelope P) (n : ℕ)
      (c c' : Consumer S P) : Type 0 where
    delivered :
        (k : ℕ)
        → k ≤ n
        → SucceedsAt envelope k c.service c'.service
        → c'.dead_letters ≡ c.dead_letters
        → Handled payload envelope n c c'
    parked :
        (e : E)
        → FailsAll envelope e n c.service c'.service
        → c'.dead_letters ≡ failure_record payload envelope e c ∷ c.dead_letters
        → Handled payload envelope n c c'

  handler-cases :
      (r : Result E (Unit {0}) × S)
      → ((s : S) × (r ≡ (ok tt, s))) ⊎ ((e : E) × (s : S) × (r ≡ (err e, s)))
  handler-cases (ok u, s) = inl (s, refl)
  handler-cases (err e, s) = inr (e, s, refl)

  module _ (left attempt : ℕ) (payload : EachMessagePayload) (envelope : EventEnvelope P)
      (c : Consumer S P) (s : S) where
    round_ok :
        handler envelope c.service ≡ (ok tt, s)
        → attempts (suc left) attempt payload envelope c ≡ record c { service = s }
    unfolding attempts_from
    round_ok h = ground arith

    round_last :
        (e : E)
        → handler envelope c.service ≡ (err e, s)
        → attempt ≡ retry.max_attempts
        → attempts (suc left) attempt payload envelope c
          ≡ park_on_dlq group_id parse jitter message handler retry payload handler_failed
              (some envelope)
              none
              attempt
              (message e)
              (record c { service = s })
    unfolding attempts_from
    round_last e h a = ground arith

    round_again :
        (e : E)
        → handler envelope c.service ≡ (err e, s)
        → attempt < retry.max_attempts
        → attempts (suc left) attempt payload envelope c
          ≡ attempts left
              (attempt + 1)
              payload
              envelope
              (sleep group_id parse jitter message handler retry attempt (record c { service = s }))
    unfolding attempts_from
    round_again e h a = ground arith

  park-dead_letters :
      (payload : EachMessagePayload) (envelope : EventEnvelope P) (e : E) (c : Consumer S P)
      → let c' =
          park_on_dlq group_id parse jitter message handler retry payload handler_failed
            (some envelope)
            none
            retry.max_attempts
            (message e)
            c in
        (c'.dead_letters ≡ failure_record payload envelope e c ∷ c.dead_letters)
        × (c'.service ≡ c.service)
  unfolding park_on_dlq ensure_dlq_topic
  park-dead_letters payload envelope e c = (ground arith, ground arith)

  after_sleep :
      (payload : EachMessagePayload) (envelope : EventEnvelope P) (n attempt : ℕ)
      (c c' : Consumer S P) (s : S) (x : E)
      → handler envelope c.service ≡ (err x, s)
      → Handled payload envelope n
          (sleep group_id parse jitter message handler retry attempt (record c { service = s }))
          c'
      → Handled payload envelope (suc n) c c'
  unfolding sleep
  after_sleep payload envelope n attempt c c' s x h (delivered k le r d) =
      delivered (suc k) (omega arith) (later x h r) d
  after_sleep payload envelope n attempt c c' s x h (parked e r d) = parked e (again x h r) d

  attempts-Handled :
      (left attempt : ℕ) (payload : EachMessagePayload) (envelope : EventEnvelope P)
      (c : Consumer S P)
      → attempt + left ≡ retry.max_attempts
      → Handled payload envelope (suc left) c (attempts (suc left) attempt payload envelope c)
  attempts-Handled zero attempt payload envelope c a =
      elim (handler-cases (handler envelope c.service)) [
        | inl (s, h) ↦
            rw (round_ok zero attempt payload envelope c s h)
              (delivered 1 (omega arith) (first h) refl)
        | inr (e, s, h) ↦
            let last_try : attempt ≡ retry.max_attempts = omega arith in
            let (d, v) = park-dead_letters payload envelope e (record c { service = s }) in
            rw (round_last zero attempt payload envelope c s e h last_try, last_try)
              (parked e (last (h ∙ ap (λ t. (err e, t)) (sym v))) d)
      ]
  attempts-Handled (suc left) attempt payload envelope c a =
      let more = λ (s : S).
        attempts-Handled left (attempt + 1) payload envelope
          (sleep group_id parse jitter message handler retry attempt (record c { service = s }))
          (omega arith) in
      elim (handler-cases (handler envelope c.service)) [
        | inl (s, h) ↦
            rw (round_ok (suc left) attempt payload envelope c s h)
              (delivered 1 (omega arith) (first h) refl)
        | inr (e, s, h) ↦
            rw (round_again (suc left) attempt payload envelope c s e h (omega arith))
              (after_sleep payload envelope (suc left) attempt c _ s e h (more s))
      ]

  each_message_parses :
      (payload : EachMessagePayload) (raw : String) (envelope : EventEnvelope P) (c : Consumer S P)
      → text_value payload.value ≡ some raw
      → parse raw ≡ ok envelope
      → each_message group_id parse jitter message handler retry payload c
        ≡ attempts retry.max_attempts 1 payload envelope c
  unfolding each_message
  each_message_parses payload raw envelope c v p = ground arith

  never_succeeds :
      {envelope : EventEnvelope P} {k : ℕ} {s s' : S} (e : E)
      → SucceedsAt envelope k s s'
      → ¬ (handler envelope s ≡ (err e, s))
  never_succeeds e (first h) q = cc
  never_succeeds {envelope} e (later x h r) q =
      never_succeeds e r
        (subst (λ (t : S). handler envelope t ≡ (err e, t)) (ap (λ t. t.1) (sym q ∙ h)) q)

  same_failure :
      {envelope : EventEnvelope P} {x : E} {k : ℕ} {s s' : S} (e : E)
      → FailsAll envelope x k s s'
      → handler envelope s ≡ (err e, s)
      → (x ≡ e) × (s' ≡ s)
  same_failure e (last h) q = (cc, cc)
  same_failure {envelope} e (again {s = s} {s₁ = s₁} y h r) q =
      let still : s₁ ≡ s = ap (λ t. t.1) (sym h ∙ q) in
      let (a, b) =
        same_failure e r (subst (λ (t : S). handler envelope t ≡ (err e, t)) (sym still) q) in
      (a, b ∙ still)

  -- A message that parses, with at least one attempt configured: either its handler succeeds at some
  -- attempt, and nothing is parked; or every configured attempt throws, and exactly one record is
  -- parked on the dead letter topic, which carries the envelope, the number of attempts and the
  -- last error. The service's state is the one that those attempts leave.
  pub each_message-Handled :
      (payload : EachMessagePayload) (raw : String) (envelope : EventEnvelope P) (c : Consumer S P)
      → 0 < retry.max_attempts
      → text_value payload.value ≡ some raw
      → parse raw ≡ ok envelope
      → Handled payload envelope retry.max_attempts c
          (each_message group_id parse jitter message handler retry payload c)
  unfolding each_message
  each_message-Handled payload raw envelope c pos v p =
      let n = retry.max_attempts - 1 in
      let m : retry.max_attempts ≡ suc n = omega arith in
      rw (each_message_parses payload raw envelope c v p) (
        subst (λ (k : ℕ). Handled payload envelope k c (attempts k 1 payload envelope c)) (sym m)
          (attempts-Handled n 1 payload envelope c (omega arith)))

  -- A handler that always throws the same error from a state, and leaves that state, has its message
  -- parked, and the service stays as it was.
  pub poison_parked :
      (payload : EachMessagePayload) (raw : String) (envelope : EventEnvelope P) (c : Consumer S P)
      (e : E)
      → 0 < retry.max_attempts
      → text_value payload.value ≡ some raw
      → parse raw ≡ ok envelope
      → handler envelope c.service ≡ (err e, c.service)
      → let c' = each_message group_id parse jitter message handler retry payload c in
        (c'.service ≡ c.service)
        × (c'.dead_letters ≡ failure_record payload envelope e c ∷ c.dead_letters)
  poison_parked payload raw envelope c e pos v p h =
      elim (each_message-Handled payload raw envelope c pos v p) [
        | delivered k le r d ↦ absurd (never_succeeds e r h)
        | parked x r d ↦
            let (a, b) = same_failure e r h in
            (b, d ∙ ap (λ y. failure_record payload envelope y c ∷ c.dead_letters) a)
      ]
