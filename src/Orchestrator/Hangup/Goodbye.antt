-- ===== src/Orchestrator/Hangup/Goodbye.antt =====
-- Where the end of the call stands among the frames.
use turncall.Prelude.{
  Bool, true, false, Bool-cases, inl, inr, List, [], ◌∷◌, ◌++◌, ◌≡◌, refl, arith, ap₂,
}
use mathlib.Core.List.{append_assoc}
use turncall.Orchestrator.Hangup.{
  Frame, arm_frame, reply_start, reply_end, other, Sent, pushed, end_worker, Gate, fresh, end_call,
  process_frame, process,
}

-- The frames that are not the gate's own are sent on as they are.
unfoldable pub passed : Frame → List Sent
passed (arm_frame current_reply) = []
passed frame = pushed frame ∷ []

unfoldable pub passed_on : List Frame → List Sent
passed_on [] = []
passed_on (frame ∷ rest) = passed frame ++ passed_on rest

abbrev pub is_arm : Frame → Bool
is_arm (arm_frame current_reply) = true
is_arm _ = false

-- A reply that starts, or the order to end after the current one.
abbrev pub begins : Frame → Bool
begins reply_start = true
begins (arm_frame current_reply) = current_reply
begins _ = false

abbrev pub closes : Frame → Bool
closes reply_end = true
closes _ = false

abbrev pub AllNot : (Frame → Bool) → List Frame → Type 0
AllNot p [] = Unit
AllNot p (frame ∷ rest) = (p frame ≡ false) × AllNot p rest

-- What the gate sends for a run of frames, and what is then known of it.
record Passes (P : Gate → Type 0) (out : List Sent) (answer : List Sent × Gate) : Type 0 where
  sent : answer.0 ≡ out
  then_is : P answer.1

module _ (P : Gate → Type 0) (p : Frame → Bool)
    (step : (frame : Frame) (g : Gate)
      → p frame ≡ false
      → P g
      → Passes P (passed frame) (process_frame frame g)) where
  passes_all :
      (frames : List Frame) (g : Gate)
      → AllNot p frames
      → P g
      → Passes P (passed_on frames) (process frames g)
  unfolding process passed_on
  passes_all [] g h k = record { sent = refl; then_is = k }
  passes_all (frame ∷ rest) g h k =
      let one : Passes P (passed frame) (process_frame frame g) = step frame g h.0 k in
      let more : Passes P (passed_on rest) (process rest (process_frame frame g).1) =
        passes_all rest (process_frame frame g).1 h.1 one.then_is in
      record { sent = ap₂ (◌++◌) one.sent more.sent; then_is = more.then_is }

process-append :
    (xs ys : List Frame) (g : Gate)
    → process (xs ++ ys) g
      ≡ ((process xs g).0 ++ (process ys (process xs g).1).0, (process ys (process xs g).1).1)
unfolding process
process-append [] ys g = refl
process-append (x ∷ xs) ys g =
    rw (process-append xs ys (process_frame x g).1, append_assoc (process_frame x g).0) refl

Waiting : Gate → Type 0
Waiting g = (g.armed ≡ false) × (g.replying ≡ false) × (g.ended ≡ false)

Armed : Gate → Type 0
Armed g = (g.armed ≡ true) × (g.replying ≡ false) × (g.ended ≡ false)

LastReply : Gate → Type 0
LastReply g = (g.replying ≡ true) × (g.ended ≡ false) × (g.quiet ≡ false)

HasEnded : Gate → Type 0
HasEnded g = g.ended ≡ true

Waiting-step :
    (frame : Frame) (g : Gate)
    → is_arm frame ≡ false
    → Waiting g
    → Passes Waiting (passed frame) (process_frame frame g)
unfolding passed process_frame Waiting
Waiting-step (arm_frame b) g h k = ground arith
Waiting-step reply_start g h k = record { sent = refl; then_is = ground arith }
Waiting-step reply_end g h k = rw k.1 (record { sent = refl; then_is = (k.0, refl, k.2) })
Waiting-step other g h k = record { sent = refl; then_is = k }

Armed-step :
    (frame : Frame) (g : Gate)
    → begins frame ≡ false
    → Armed g
    → Passes Armed (passed frame) (process_frame frame g)
unfolding passed process_frame Armed
Armed-step (arm_frame false) g h k = record { sent = refl; then_is = (refl, k.1, k.2) }
Armed-step (arm_frame true) g h k = ground arith
Armed-step reply_start g h k = ground arith
Armed-step reply_end g h k = rw k.1 (record { sent = refl; then_is = (k.0, refl, k.2) })
Armed-step other g h k = record { sent = refl; then_is = k }

last_step :
    (frame : Frame) (g : Gate)
    → closes frame ≡ false
    → LastReply g
    → Passes LastReply (passed frame) (process_frame frame g)
unfolding passed process_frame LastReply
last_step (arm_frame false) g h k = record { sent = refl; then_is = k }
last_step (arm_frame true) g h k = rw k.2 (record { sent = refl; then_is = (refl, k.1, refl) })
last_step reply_start g h k = record { sent = refl; then_is = (ground arith, k.1, refl) }
last_step reply_end g h k = ground arith
last_step other g h k = record { sent = refl; then_is = k }

ended_step :
    (frame : Frame) (g : Gate) → HasEnded g → Passes HasEnded (passed frame) (process_frame frame g)
unfolding passed process_frame end_call HasEnded
ended_step (arm_frame false) g k = record { sent = refl; then_is = k }
ended_step (arm_frame true) g k = elim (Bool-cases g.quiet) [
  | inl q ↦ rw (q, k) (record { sent = refl; then_is = refl })
  | inr q ↦ rw q (record { sent = refl; then_is = k })
]
ended_step reply_start g k = record { sent = refl; then_is = k }
ended_step reply_end g k = elim (Bool-cases g.replying) [
  | inl r ↦ rw (r, k) (record { sent = refl; then_is = refl })
  | inr r ↦ rw r (record { sent = refl; then_is = k })
]
ended_step other g k = record { sent = refl; then_is = k }

-- The frame that closes the last reply.
last_end :
    (g : Gate)
    → LastReply g
    → Passes HasEnded (pushed reply_end ∷ end_worker ∷ []) (process_frame reply_end g)
unfolding process_frame end_call LastReply HasEnded
last_end g k = rw (k.0, k.1) (record { sent = refl; then_is = refl })

first_arm : (g : Gate) → Waiting g → Passes Armed [] (process_frame (arm_frame false) g)
unfolding process_frame Waiting Armed
first_arm g k = record { sent = refl; then_is = (refl, k.1, k.2) }

last_start :
    (g : Gate) → Armed g → Passes LastReply (pushed reply_start ∷ []) (process_frame reply_start g)
unfolding process_frame LastReply Armed
last_start g k = record { sent = refl; then_is = (ground arith, k.2, refl) }

-- One run behind another.
module _ {P Q : Gate → Type 0} {out more : List Sent} where
  behind :
      (xs ys : List Frame) (g : Gate)
      → Passes P out (process xs g)
      → ((g' : Gate) → P g' → Passes Q more (process ys g'))
      → Passes Q (out ++ more) (process (xs ++ ys) g)
  behind xs ys g h next =
      let h' : Passes Q more (process ys (process xs g).1) = next (process xs g).1 h.then_is in
      rw (process-append xs ys g)
        (record { sent = ap₂ (◌++◌) h.sent h'.sent; then_is = h'.then_is })

  after_one :
      (frame : Frame) (ys : List Frame) (g : Gate)
      → Passes P out (process_frame frame g)
      → ((g' : Gate) → P g' → Passes Q more (process ys g'))
      → Passes Q (out ++ more) (process (frame ∷ ys) g)
  unfolding process
  after_one frame ys g h next =
      let h' : Passes Q more (process ys (process_frame frame g).1) =
        next (process_frame frame g).1 h.then_is in
      record { sent = ap₂ (◌++◌) h.sent h'.sent; then_is = h'.then_is }

ended_all :
    (frames : List Frame) (g : Gate)
    → HasEnded g
    → Passes HasEnded (passed_on frames) (process frames g)
unfolding process passed_on
ended_all [] g k = record { sent = refl; then_is = k }
ended_all (frame ∷ rest) g k =
    after_one frame rest g (ended_step frame g k) (λ g' k'. ended_all rest g' k')

goodbye :
    (reply after : List Frame) (g : Gate)
    → AllNot closes reply
    → LastReply g
    → Passes HasEnded
        (passed_on reply ++ (pushed reply_end ∷ end_worker ∷ passed_on after))
        (process (reply ++ (reply_end ∷ after)) g)
goodbye reply after g h k =
    behind reply (reply_end ∷ after) g (passes_all LastReply closes last_step reply g h k)
      (λ g' k'. after_one reply_end after g' (last_end g' k') (λ g2 k2. ended_all after g2 k2))

-- Until the ending tool arms the gate, every frame passes; it then lets the reply that is playing
-- run out, and sends the end right behind the first whole reply that starts after that, once only,
-- whatever comes later.
pub ends_after_goodbye :
    (before playing reply after : List Frame)
    → AllNot is_arm before
    → AllNot begins playing
    → AllNot closes reply
    → (process
        (before ++ (arm_frame false ∷ (playing ++ (reply_start ∷ (reply ++ (reply_end ∷ after))))))
        fresh).0
      ≡ passed_on before
        ++ (passed_on playing
            ++ (pushed reply_start
                ∷ (passed_on reply ++ (pushed reply_end ∷ end_worker ∷ passed_on after))))
unfolding Waiting
ends_after_goodbye before playing reply after hb hp hr =
    (behind before _ fresh
      (passes_all Waiting is_arm Waiting-step before fresh hb (refl, refl, refl))
      (λ g k. after_one (arm_frame false) _ g (first_arm g k) (λ g' k'.
        behind playing _ g' (passes_all Armed begins Armed-step playing g' hp k') (λ g2 k2.
          after_one reply_start _ g2 (last_start g2 k2)
            (λ g3 k3. goodbye reply after g3 hr k3))))).sent
