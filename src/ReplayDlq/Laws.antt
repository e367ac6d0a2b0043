-- ===== src/ReplayDlq/Laws.antt =====
-- What a replay sends, and when it ends.
use ryd_trip.Prelude.{
  ℕ, ◌+◌, ◌≤◌, ◌<◌, String, ◌≡◌, refl, ◌∙◌, ◌↔◌, Bool, true, Option, none, some, List, [], ◌∷◌,
  ◌++◌, arith, length, inl, inr, Option-cases,
}
use ryd_trip.EventSchema.EventConsumer.{DlqRecord, text_value}
use ryd_trip.ReplayDlq.{Replay, started, replay_record, check_end, each_message, replay}

module _ {P : Type 0} (parse : String → Option (DlqRecord P)) (dry_run : Bool)
    (high_watermark : ℕ) where
  -- The record that the value of a message holds.
  abbrev parsed : Option String → Option (DlqRecord P)
  parsed none = none
  parsed (some raw) = parse raw

  abbrev pub record_in : Option String → Option (DlqRecord P)
  record_in value = parsed (text_value value)

  abbrev pub IsReadable : Option String → Type 0
  IsReadable value = (r : DlqRecord P) × (record_in value ≡ some r)

  replay_record-counts :
      (r : DlqRecord P) (s : Replay P)
      → ((replay_record parse dry_run high_watermark r s).seen ≡ s.seen)
        × ((replay_record parse dry_run high_watermark r s).resolved ≡ s.resolved)
  unfolding replay_record
  replay_record-counts r s = (ground arith, ground arith)

  unfoldable counted : Replay P → Replay P
  counted s = record s { seen = s.seen + 1 }

  message_unreadable :
      (m : Option String) (s : Replay P)
      → record_in m ≡ none
      → let s' = each_message parse dry_run high_watermark m s in
        (s'.seen ≡ s.seen + 1) × (s'.resolved ≡ s.resolved) × (s'.sent ≡ s.sent)
  unfolding each_message
  message_unreadable m s h = ground arith

  message_readable :
      (m : Option String) (s : Replay P) (r : DlqRecord P)
      → record_in m ≡ some r
      → each_message parse dry_run high_watermark m s
        ≡ check_end parse dry_run high_watermark
            (replay_record parse dry_run high_watermark r (counted s))
  unfolding each_message counted
  message_readable m s r h = ground arith

  check_end-counts :
      (s : Replay P)
      → let s' = check_end parse dry_run high_watermark s in
        (s'.seen ≡ s.seen)
        × (s.seen < high_watermark → s'.resolved ≡ s.resolved)
        × (high_watermark ≤ s.seen → s'.resolved ≡ true)
        × (s'.sent ≡ s.sent)
  unfolding check_end
  check_end-counts s = (ground arith, λ h. ground arith, λ h. ground arith, ground arith)

  -- What one message does to the counter of messages and to the promise.
  record Effect (m : Option String) (s s' : Replay P) : Type 0 where
    counts : s'.seen ≡ s.seen + 1
    early : s.seen + 1 < high_watermark → s'.resolved ≡ s.resolved
    readable_ends : IsReadable m → high_watermark ≤ s.seen + 1 → s'.resolved ≡ true
    unreadable_stays : record_in m ≡ none → s'.resolved ≡ s.resolved

  each_message-Effect :
      (m : Option String) (s : Replay P)
      → Effect m s (each_message parse dry_run high_watermark m s)
  unfolding counted
  each_message-Effect m s = elim (Option-cases (record_in m)) [
    | inl h ↦
        let (seen, resolved, sent) = message_unreadable m s h in
        record {
          counts = seen;
          early = λ e. resolved;
          readable_ends = λ r e. absurd (cc (h, r.1));
          unreadable_stays = λ e. resolved;
        }
    | inr (r, h) ↦
        let step = replay_record parse dry_run high_watermark r (counted s) in
        let (seen, resolved) = replay_record-counts r (counted s) in
        let (c_seen, c_early, c_end, c_sent) = check_end-counts step in
        rw (message_readable m s r h) (record {
          counts = c_seen ∙ seen;
          early = λ e. c_early (omega (arith, seen)) ∙ resolved;
          readable_ends = λ q e. c_end (omega (arith, seen));
          unreadable_stays = λ q. absurd (cc (h, q));
        })
  ]

  -- Messages before the last of the topic leave the promise open, and all are counted.
  replay_early :
      (ms : List (Option String)) (s : Replay P)
      → s.seen + length ms < high_watermark
      → let s' = replay parse dry_run high_watermark ms s in
        (s'.seen ≡ s.seen + length ms) × (s'.resolved ≡ s.resolved)
  unfolding replay
  replay_early [] s h = (omega arith, refl)
  replay_early (m ∷ ms) s h =
      let e = each_message-Effect m s in
      let (seen, resolved) =
        replay_early ms (each_message parse dry_run high_watermark m s) (omega (arith, e.counts)) in
      (omega (arith, seen, e.counts), resolved ∙ e.early (omega arith))

  replay_append :
      (ms : List (Option String)) (m : Option String) (s : Replay P)
      → replay parse dry_run high_watermark (ms ++ (m ∷ [])) s
        ≡ each_message parse dry_run high_watermark m (replay parse dry_run high_watermark ms s)
  unfolding replay
  replay_append [] m s = refl
  replay_append (x ∷ ms) m s = replay_append ms m (each_message parse dry_run high_watermark x s)

  -- A replay of a topic that holds as many messages as its watermark says ends exactly if its last
  -- message can be read as a parked record: with any other last message, though every other one was
  -- dealt with, the promise that the script waits for is never resolved.
  pub replay_ends_iff :
      (ms : List (Option String)) (m : Option String)
      → length ms + 1 ≡ high_watermark
      → ((replay parse dry_run high_watermark (ms ++ (m ∷ [])) started).resolved ≡ true)
        ↔ IsReadable m
  replay_ends_iff ms m h =
      let (seen, resolved) = replay_early ms started (omega arith) in
      let before = replay parse dry_run high_watermark ms started in
      let e = each_message-Effect m before in
      rw (replay_append ms m started) (
        λ t. elim (Option-cases (record_in m)) [
          | inl gone ↦ absurd (cc (e.unreadable_stays gone, resolved, t))
          | inr readable ↦ readable
        ],
        λ readable. e.readable_ends readable (omega (arith, seen)),
      )
