-- ===== src/WsServer/History.antt =====
-- Which frames a client gets, by what it sent before.
use mathlib.Core.Path.{subst, sym}
use open_synapse.Prelude.{
  ◌+◌, ◌≤◌, ◌≡◌, ◌⊎◌, inl, inr, refl, sym, ◌∙◌, String, eq_iff, Bool, true, false, not, ◌&&◌, ◌||◌,
  Option, none, some, List, [], ◌∷◌, ◌++◌, ltb, length, Bool-cases, arith, All, All-map,
  length-append,
}
use text.Mathlib.Text.{◌==◌ as str_eq}
use open_synapse.WsServer.{
  send_queue, Message, auth, subscribe, unsubscribe, other, Frame, Session, has_channel, without,
  Event, read, broadcast, write, hang_up, accepts, connect, handle, offer, write_frame, step,
  session, open_step,
}

List-cases : {A : Type 0} (xs : List A) → (xs ≡ []) ⊎ ((x : A) × ((ys : List A) × (xs ≡ x ∷ ys)))
List-cases [] = inl refl
List-cases (x ∷ xs) = inr (x, (xs, refl))

module _ (authenticate : Option (String → Bool)) where
  -- The client has sent a token that is accepted, if there are tokens at all.
  unfoldable pub granted : List Event → Bool
  granted [] = elim authenticate [ none ↦ true | some f ↦ false ]
  granted (read (auth token) ∷ past) = accepts authenticate token || granted past
  granted (_ ∷ past) = granted past

  -- It has subscribed to a channel when it might, and not unsubscribed since.
  unfoldable pub subscribed : String → List Event → Bool
  subscribed c [] = false
  subscribed c (read (subscribe d) ∷ past) = (str_eq d c && granted past) || subscribed c past
  subscribed c (read (unsubscribe d) ∷ past) = not (str_eq d c) && subscribed c past
  subscribed c (_ ∷ past) = subscribed c past

  -- A frame that was broadcast while the client was subscribed to its channel.
  abbrev pub IsDue : List Event → Frame → Type 0
  IsDue [] f = ⊥
  IsDue (broadcast g ∷ past) f = ((g ≡ f) × (subscribed f.channel past ≡ true)) ⊎ IsDue past f
  IsDue (_ ∷ past) f = IsDue past f

  -- An open connection knows its history.
  abbrev IsInStep : List Event → Session → Type 0
  IsInStep past s =
      (s.client.authed ≡ granted past)
      × ((c : String) → has_channel c s.client.channels ≡ subscribed c past)

  has_channel-without :
      (c d : String) (ds : List String)
      → has_channel c (without d ds) ≡ (not (str_eq d c) && has_channel c ds)
  unfolding without
  has_channel-without c d [] = ground arith
  has_channel-without c d (e ∷ ds) =
      ground (arith, has_channel-without c d ds, eq_iff e d, eq_iff d c, eq_iff e c)

  handle-IsInStep :
      (m : Message) (past : List Event) (s : Session)
      → IsInStep past s
      → (handle authenticate m s).is_open ≡ true
      → IsInStep (read m ∷ past) (handle authenticate m s)
  unfolding handle granted subscribed
  handle-IsInStep (auth token) past s (known, same) stays =
      elim (Bool-cases (accepts authenticate token)) [
        | inl accepted ↦ (ground (arith, accepted), λ c. ground (arith, accepted, same c))
        | inr refused ↦ absurd (ground (arith, refused, stays))
      ]
  handle-IsInStep (subscribe d) past s (known, same) stays =
      (ground (arith, known), λ c. ground (arith, known, same c))
  handle-IsInStep (unsubscribe d) past s (known, same) stays =
      (known, λ c. ground (arith, same c, has_channel-without c d s.client.channels))
  handle-IsInStep other past s (known, same) stays = (known, same)

  offer-IsInStep :
      (f : Frame) (past : List Event) (s : Session)
      → IsInStep past s
      → IsInStep (broadcast f ∷ past) (offer authenticate f s)
  unfolding offer granted subscribed
  offer-IsInStep f past s (known, same) = (ground (arith, known), λ c. ground (arith, same c))

  write_frame-IsInStep :
      (past : List Event) (s : Session)
      → IsInStep past s
      → IsInStep (write ∷ past) (write_frame authenticate s)
  unfolding write_frame granted subscribed
  write_frame-IsInStep past s (known, same) = elim (List-cases s.client.send) [
    | inl idle ↦ (ground (arith, known, idle), λ c. ground (arith, same c, idle))
    | inr (f, (fs, waiting)) ↦
        (ground (arith, known, waiting), λ c. ground (arith, same c, waiting))
  ]

  open_step-IsInStep :
      (e : Event) (past : List Event) (s : Session)
      → IsInStep past s
      → (open_step authenticate e s).is_open ≡ true
      → IsInStep (e ∷ past) (open_step authenticate e s)
  unfolding open_step
  open_step-IsInStep (read m) past s h stays = handle-IsInStep m past s h stays
  open_step-IsInStep (broadcast f) past s h stays = offer-IsInStep f past s h
  open_step-IsInStep write past s h stays = write_frame-IsInStep past s h
  open_step-IsInStep hang_up past s h stays = absurd (ground (arith, stays))

  step_open :
      (e : Event) (s : Session)
      → s.is_open ≡ true
      → step authenticate e s ≡ open_step authenticate e s
  unfolding step
  step_open e s o = ground (arith, o)

  step_closed : (e : Event) (s : Session) → s.is_open ≡ false → step authenticate e s ≡ s
  unfolding step
  step_closed e s o = ground (arith, o)

  -- As long as a connection is open, its state is what its history says: it may subscribe exactly if
  -- it has sent a token that is accepted (or none is needed), and it is subscribed to a channel
  -- exactly if it has subscribed to it since it might, and has not unsubscribed since.
  pub session-IsInStep :
      (past : List Event)
      → (session authenticate past).is_open ≡ true
      → ((session authenticate past).client.authed ≡ granted past)
        × ((c : String)
            → has_channel c (session authenticate past).client.channels ≡ subscribed c past)
  unfolding session connect granted subscribed
  session-IsInStep [] o = (refl, λ c. refl)
  session-IsInStep (e ∷ past) o =
      let s = session authenticate past in
      elim (Bool-cases s.is_open) [
        | inr closed ↦ absurd (ground (arith, o, closed, step_closed e s closed))
        | inl opened ↦
            let same = step_open e s opened in
            subst (IsInStep (e ∷ past)) (sym same)
              (open_step-IsInStep e past s (session-IsInStep past opened) (ground (arith, o, same)))
      ]

  IsDue-later :
      (e : Event) (past : List Event) (fs : List Frame)
      → All (IsDue past) fs
      → All (IsDue (e ∷ past)) fs
  IsDue-later (read m) past fs h = h
  IsDue-later (broadcast g) past fs h = All-map fs (λ f due. inr due) h
  IsDue-later write past fs h = h
  IsDue-later hang_up past fs h = h

  All-append : (P : Frame → Type 0) (fs gs : List Frame) → All P fs → All P gs → All P (fs ++ gs)
  All-append P [] gs h k = k
  All-append P (f ∷ fs) gs h k = (h.0, All-append P fs gs h.1 k)

  -- what was and what will be written is due, and the queue is within its bound
  abbrev IsOrderly : List Event → Session → Type 0
  IsOrderly past s =
      All (IsDue past) s.written
      × (All (IsDue past) s.client.send × (length s.client.send ≤ send_queue))

  IsOrderly-later :
      (e : Event) (past : List Event) (s : Session) → IsOrderly past s → IsOrderly (e ∷ past) s
  IsOrderly-later e past s (written, (queued, short)) =
      (IsDue-later e past s.written written, (IsDue-later e past s.client.send queued, short))

  handle_queue :
      (m : Message) (s : Session)
      → ((handle authenticate m s).written ≡ s.written)
        × ((handle authenticate m s).client.send ≡ s.client.send)
  unfolding handle
  handle_queue (auth token) s = ground arith
  handle_queue (subscribe c) s = ground arith
  handle_queue (unsubscribe c) s = (refl, refl)
  handle_queue other s = (refl, refl)

  handle-IsOrderly :
      (m : Message) (past : List Event) (s : Session)
      → IsOrderly past s
      → IsOrderly past (handle authenticate m s)
  handle-IsOrderly m past s h =
      let (written, queued) = handle_queue m s in
      (
        subst (λ fs. All (IsDue past) fs) (sym written) h.0,
        subst (λ fs. All (IsDue past) fs × (length fs ≤ send_queue)) (sym queued) h.1,
      )

  offer-IsOrderly :
      (f : Frame) (past : List Event) (s : Session)
      → IsInStep past s
      → IsOrderly past s
      → IsOrderly (broadcast f ∷ past) (offer authenticate f s)
  unfolding offer
  offer-IsOrderly f past s known h =
      let later = IsOrderly-later (broadcast f) past s h in
      elim (Bool-cases (has_channel f.channel s.client.channels)) [
        | inr unsubscribed ↦
            subst (IsOrderly (broadcast f ∷ past)) {x = s} {y = offer authenticate f s}
              (ground (arith, unsubscribed)) later
        | inl subscribed_now ↦
            let due : IsDue (broadcast f ∷ past) f =
              inl (refl, sym (known.1 f.channel) ∙ subscribed_now) in
            elim (Bool-cases (ltb (length s.client.send) send_queue)) [
              | inr full ↦
                  subst (IsOrderly (broadcast f ∷ past)) {x = record s { dropped = s.dropped + 1 }}
                    {y = offer authenticate f s} (ground (arith, subscribed_now, full)) later
              | inl room ↦
                  subst (IsOrderly (broadcast f ∷ past))
                    {x = record s { client = record s.client { send = s.client.send ++ f ∷ [] } }}
                    {y = offer authenticate f s} (ground (arith, subscribed_now, room))
                    (
                      later.0,
                      (
                        All-append (IsDue (broadcast f ∷ past)) s.client.send (f ∷ []) later.1.0
                            (due, tt),
                        ground (arith, room, length-append s.client.send (f ∷ [])),
                      ),
                    )
            ]
      ]

  write_frame-IsOrderly :
      (past : List Event) (s : Session)
      → IsOrderly past s
      → IsOrderly past (write_frame authenticate s)
  unfolding write_frame
  write_frame-IsOrderly past s h = elim (List-cases s.client.send) [
    | inl idle ↦
        subst (IsOrderly past) {x = s} {y = write_frame authenticate s} (ground (arith, idle)) h
    | inr (f, (fs, waiting)) ↦
        let queued : All (IsDue past) (f ∷ fs) × (length (f ∷ fs) ≤ send_queue) =
          subst (λ gs. All (IsDue past) gs × (length gs ≤ send_queue)) waiting h.1 in
        subst (IsOrderly past)
          {x = record s { client = record s.client { send = fs }; written = s.written ++ f ∷ [] }}
          {y = write_frame authenticate s} (ground (arith, waiting))
          (
            All-append (IsDue past) s.written (f ∷ []) h.0 (queued.0.0, tt),
            (queued.0.1, ground (arith, queued.1)),
          )
  ]

  open_step-IsOrderly :
      (e : Event) (past : List Event) (s : Session)
      → IsInStep past s
      → IsOrderly past s
      → IsOrderly (e ∷ past) (open_step authenticate e s)
  unfolding open_step
  open_step-IsOrderly (read m) past s known h =
      IsOrderly-later (read m) past (handle authenticate m s) (handle-IsOrderly m past s h)
  open_step-IsOrderly (broadcast f) past s known h = offer-IsOrderly f past s known h
  open_step-IsOrderly write past s known h =
      IsOrderly-later write past (write_frame authenticate s) (write_frame-IsOrderly past s h)
  open_step-IsOrderly hang_up past s known h = IsOrderly-later hang_up past s h

  -- A client gets nothing that it is not due: over any events of its connection, every frame that was
  -- or will be written to it was broadcast while the client was subscribed to the frame's channel, a
  -- subscription that it made after it had sent an accepted token (or none was needed); and no more than
  -- 128 frames wait for it.
  pub session-IsOrderly :
      (past : List Event)
      → All (IsDue past) (session authenticate past).written
        × (All (IsDue past) (session authenticate past).client.send
            × (length (session authenticate past).client.send ≤ send_queue))
  unfolding session connect
  session-IsOrderly [] = (tt, (tt, omega arith))
  session-IsOrderly (e ∷ past) =
      let s = session authenticate past in
      let before = session-IsOrderly past in
      elim (Bool-cases s.is_open) [
        | inr closed ↦
            subst (IsOrderly (e ∷ past)) (sym (step_closed e s closed))
              (IsOrderly-later e past s before)
        | inl opened ↦
            subst (IsOrderly (e ∷ past)) (sym (step_open e s opened))
              (open_step-IsOrderly e past s (session-IsInStep past opened) before)
      ]
