-- ===== src/Games/Engine/Refine.antt =====
-- The adapter does what the typed logic does, on the state that the stored JSON holds.
use podium.Base.{ℕ, ◌≡◌, subst, Option, some, ok, or_fail, >>=-ok, or_fail-ok}
use podium.Games.Common.{Bytes, Time, bad_state, encode_failed, Outcome}
use podium.Games.Engine.{
  Logic, Codec, encode, decode, engine_start, engine_move, engine_view, engine_raw,
}

module _ {F S V : Type 0} (l : Logic F S V) (c : Codec S V) where
  -- The stored JSON reads back as a state with the property.
  abbrev pub Holds : (S → Type 0) → Bytes → Type 0
  Holds I state = (s : S) × (c.unmarshal state ≡ some s) × I s

  encode-ok :
      (s : S) {e : Bytes × Bytes}
      → encode l c s ≡ ok e
      → (c.unmarshal e.0 ≡ some s) × (c.marshal_view (l.view s) ≡ some e.1)
  unfolding encode
  encode-ok s {e} h =
      let (state, first, rest) = >>=-ok (or_fail (c.marshal s) encode_failed) _ h in
      let (view, second, last) =
        >>=-ok (or_fail (c.marshal_view (l.view s)) encode_failed) _ rest in
      let written = or_fail-ok (c.marshal s) encode_failed first in
      let shown = or_fail-ok (c.marshal_view (l.view s)) encode_failed second in
      (cc (c.round_trip s state written), cc)

  decode-ok : (state : Bytes) {s : S} → decode l c state ≡ ok s → c.unmarshal state ≡ some s
  unfolding decode
  decode-ok state h = or_fail-ok (c.unmarshal state) bad_state h

  view_of :
      (state : Bytes) (s : S) {v : Bytes}
      → c.unmarshal state ≡ some s
      → c.marshal_view (l.view s) ≡ some v
      → engine_view l c state ≡ ok v
  unfolding engine_view decode
  view_of state s read shown = rw read (rw shown)

  raw_of :
      (state : Bytes) (s : S) → c.unmarshal state ≡ some s → engine_raw l c state ≡ ok (l.raw s)
  unfolding engine_raw decode
  raw_of state s read = rw read

  -- What an accepted move of the engine did: the typed move on the state that was stored, with the
  -- new state stored, the view that of the new state, and the metric that of the new state.
  abbrev pub Moved : Bytes → Bytes → Time → Bytes × Bytes × Outcome → Type 0
  Moved state raw now r =
      (s : S) × (t : S) × (c.unmarshal state ≡ some s)
      × (l.move s raw now ≡ ok (t, r.2))
      × (c.unmarshal r.0 ≡ some t)
      × (engine_view l c r.0 ≡ ok r.1)
      × (engine_raw l c r.0 ≡ ok (l.raw t))

  -- A move that the engine accepts is the typed move on the state that the stored JSON holds: its
  -- new state is stored, the view is that of it, and the metric of what is stored is the metric of it.
  pub engine_move-Moved :
      (state raw : Bytes) (now : Time) {r : Bytes × Bytes × Outcome}
      → engine_move l c state raw now ≡ ok r
      → Moved state raw now r
  unfolding engine_move
  engine_move-Moved state raw now {r} h =
      let (s, first, rest) = >>=-ok (decode l c state) _ h in
      let (to, second, rest') = >>=-ok (l.move s raw now) _ rest in
      let (e, third, last) = >>=-ok (encode l c to.0) _ rest' in
      let (read, shown) = encode-ok to.0 third in
      let stored : c.unmarshal r.0 ≡ some to.0 = cc in
      (
        s,
        to.0,
        decode-ok state first,
        cc,
        stored,
        view_of r.0 to.0 stored (cc),
        raw_of r.0 to.0 stored,
      )

  -- A property of the typed state that `start` establishes and every accepted move keeps holds of
  -- whatever the engine stores.
  pub engine_keeps :
      (I : S → Type 0)
      → ((s : S) (raw : Bytes) (now : Time) (r : S × Outcome)
          → I s
          → l.move s raw now ≡ ok r
          → I r.0)
      → (state raw : Bytes) (now : Time) {r : Bytes × Bytes × Outcome} → Holds I state
      → engine_move l c state raw now ≡ ok r
      → Holds I r.0
  engine_keeps I keep state raw now (s, read, held) h =
      let (s', t, read', moved, stored, _, _) = engine_move-Moved state raw now h in
      let same : s ≡ s' = cc in (t, stored, keep s' raw now (t, _) (subst I same held) moved)

  pub engine_starts :
      (I : S → Type 0)
      → ((seed : ℕ) (now : Time) → I (l.start seed now))
      → (seed : ℕ) (now : Time) {r : Bytes × Bytes × Option Time} → engine_start l c seed now ≡ ok r
      → Holds I r.0 × (engine_view l c r.0 ≡ ok r.1) × (r.2 ≡ l.deadline (l.start seed now))
  unfolding engine_start
  engine_starts I begin seed now {r} h =
      let (e, first, last) = >>=-ok (encode l c (l.start seed now)) _ h in
      let (read, shown) = encode-ok (l.start seed now) first in
      let stored : c.unmarshal r.0 ≡ some (l.start seed now) = cc in
      ((l.start seed now, stored, begin seed now), view_of r.0 _ stored (cc), cc)
