-- ===== src/Orchestrator/Failover/OneWay.antt =====
-- A call that has left a member never goes back to it.
use turncall.Prelude.{
  ℕ, Bool, true, false, List, [], ◌∷◌, ◌≡◌, ◌≢◌, refl, sym, ◌==◌, ==_iff, Bool-cases, map, arith,
  inl, inr, ◌∙◌,
}
use mathlib.Core.Bool.{true≢false}
use mathlib.Core.Path.{subst}
use turncall.Orchestrator.Failover.Members.{
  among, Avoids, AllDistinct, Chain, differ, apart, Avoids-fewer,
}
use turncall.Orchestrator.Failover.{
  Switcher, Group, Failover, keep_failed_down, push_error_frame, settings_changed, Event,
  error_pushed, settings_of, happen, run,
}

-- What pipecat's switcher does: only an error moves it, off a member that it makes unusable and to one
-- that is usable; and an error makes no member usable.
pub record Laws {S : Type 0} (w : Switcher S) : Type 0 where
  pub sets : (m : ℕ) (b : Bool) (s : S) → w.usable (w.set_usable m b s) m ≡ b
  pub sets_only :
      (m n : ℕ) (b : Bool) (s : S) → n ≢ m → w.usable (w.set_usable m b s) n ≡ w.usable s n
  pub gains : (m : ℕ) (s : S) → w.active (w.set_usable m true s) ≡ w.active s
  pub loses : (m : ℕ) (s : S) → w.active s ≢ m → w.active (w.set_usable m false s) ≡ w.active s
  pub leaves :
      (s : S)
      → w.active (w.push_error s) ≢ w.active s
      → w.usable (w.push_error s) (w.active s) ≡ false
  pub moves :
      (s : S)
      → w.active (w.push_error s) ≢ w.active s
      → w.usable (w.push_error s) (w.active (w.push_error s)) ≡ true
  pub error_keeps : (s : S) (n : ℕ) → w.usable s n ≡ false → w.usable (w.push_error s) n ≡ false

module _ {S : Type 0} (w : Switcher S) (laws : Laws w) where
  -- A member that the call has given up on is neither usable nor the active one.
  record IsOneWay (g : Group S) : Type 0 where
    down : (n : ℕ) → among n g.failed ≡ true → w.usable g.switcher n ≡ false
    on : among (w.active g.switcher) g.failed ≡ false

  sets_elsewhere :
      (m n : ℕ) (b : Bool) (s : S)
      → (n == m) ≡ false
      → w.usable (w.set_usable m b s) n ≡ w.usable s n
  sets_elsewhere m n b s e = laws.sets_only m n b s (λ p. ground arith)

  -- The handler takes back what pipecat has just given.
  taken_back :
      (m n : ℕ) (s : S)
      → w.usable s n ≡ false
      → w.usable (w.set_usable m false (w.set_usable m true s)) n ≡ false
  taken_back m n s down = elim (Bool-cases (n == m)) [
    | inl e ↦ rw ((==_iff n m).0 e) (laws.sets m false (w.set_usable m true s))
    | inr e ↦
        rw (sets_elsewhere m n false (w.set_usable m true s) e, sets_elsewhere m n true s e) down
  ]

  loses_again :
      (m : ℕ) (g : Group S)
      → IsOneWay g
      → among m g.failed ≡ true
      → w.active (w.set_usable m false (w.set_usable m true g.switcher)) ≡ w.active g.switcher
  loses_again m g h e =
      let elsewhere : w.active (w.set_usable m true g.switcher) ≢ m =
        rw (laws.gains m g.switcher) (differ (w.active g.switcher) m g.failed h.on e) in
      laws.loses m (w.set_usable m true g.switcher) elsewhere ∙ laws.gains m g.switcher

  settings-IsOneWay : (m : ℕ) (g : Group S) → IsOneWay g → IsOneWay (settings_changed w m g)
  unfolding settings_changed keep_failed_down
  settings-IsOneWay m g h = elim (Bool-cases (among m g.failed)) [
    | inl e ↦ rw e (record {
      down = λ n k. taken_back m n g.switcher (h.down n k);
      on = rw (loses_again m g h e) h.on;
    })
    | inr e ↦ rw e (record {
      down = λ n k. rw (sets_elsewhere m n true g.switcher (apart n m g.failed k e)) (h.down n k);
      on = rw (laws.gains m g.switcher) h.on;
    })
  ]

  -- What is known of the failovers of a run that starts in `g`.
  record Way (g : Group S) (answer : List Failover × Group S) : Type 0 where
    chain : Chain (w.active g.switcher) answer.0 (w.active answer.1.switcher)
    new : Avoids g.failed (map (λ f. f.to_member) answer.0)
    distinct : AllDistinct (w.active g.switcher ∷ map (λ f. f.to_member) answer.0)

  -- Nothing moves: the way goes on from the same member.
  stays :
      (g g' : Group S) (answer : List Failover × Group S)
      → w.active g'.switcher ≡ w.active g.switcher
      → g'.failed ≡ g.failed
      → Way g' answer
      → Way g answer
  stays g g' answer a f way = record {
    chain = subst (λ m. Chain m answer.0 (w.active answer.1.switcher)) a way.chain;
    new = subst (λ ms. Avoids ms (map (λ f. f.to_member) answer.0)) f way.new;
    distinct = subst (λ m. AllDistinct (m ∷ map (λ f. f.to_member) answer.0)) a way.distinct;
  }

  -- It moves: the member that it is on is left for good.
  leaves_member :
      (g g' : Group S) (answer : List Failover × Group S)
      → IsOneWay g'
      → g'.failed ≡ w.active g.switcher ∷ g.failed
      → Way g' answer
      → Way g (
        record { from_member = w.active g.switcher; to_member = w.active g'.switcher } ∷ answer.0,
        answer.1,
      )
  leaves_member g g' answer h f way =
      let both : Avoids (w.active g.switcher ∷ []) (map (λ f. f.to_member) answer.0)
          × Avoids g.failed (map (λ f. f.to_member) answer.0) =
        Avoids-fewer (w.active g.switcher) g.failed _
          (subst (λ ms. Avoids ms (map (λ f. f.to_member) answer.0)) f way.new) in
      let on : among (w.active g'.switcher) (w.active g.switcher ∷ g.failed) ≡ false =
        subst (λ ms. among (w.active g'.switcher) ms ≡ false) f h.on in
      record {
        chain = (refl, way.chain);
        new = (ground arith, both.1);
        distinct = ((ground arith, both.0), way.distinct);
      }

  pushed-IsOneWay :
      (g : Group S)
      → IsOneWay g
      → (w.active (w.push_error g.switcher) == w.active g.switcher) ≡ false
      → IsOneWay
          (record { switcher = w.push_error g.switcher; failed = w.active g.switcher ∷ g.failed })
  pushed-IsOneWay g h e =
      let moved : w.active (w.push_error g.switcher) ≢ w.active g.switcher = λ p. ground arith in
      let there : w.usable (w.push_error g.switcher) (w.active (w.push_error g.switcher)) ≡ true =
        laws.moves g.switcher moved in
      record {
        down = λ n k. elim (Bool-cases (n == w.active g.switcher)) [
          | inl i ↦ rw ((==_iff n _).0 i) (laws.leaves g.switcher moved)
          | inr i ↦ laws.error_keeps g.switcher n (h.down n (ground arith))
        ];
        on = elim (Bool-cases (among (w.active (w.push_error g.switcher)) g.failed)) [
          | inl i ↦ absurd (true≢false (sym there ∙ laws.error_keeps g.switcher _ (h.down _ i)))
          | inr i ↦ ground arith
        ];
      }

  stayed-IsOneWay :
      (g : Group S)
      → IsOneWay g
      → w.active (w.push_error g.switcher) ≡ w.active g.switcher
      → IsOneWay (record g { switcher = w.push_error g.switcher })
  stayed-IsOneWay g h e = record {
    down = λ n k. laws.error_keeps g.switcher n (h.down n k);
    on = rw e h.on;
  }

  settings_active :
      (m : ℕ) (g : Group S)
      → IsOneWay g
      → w.active (settings_changed w m g).switcher ≡ w.active g.switcher
  unfolding settings_changed keep_failed_down
  settings_active m g h = elim (Bool-cases (among m g.failed)) [
    | inl e ↦ rw e (loses_again m g h e)
    | inr e ↦ rw e (laws.gains m g.switcher)
  ]

  settings_failed : (m : ℕ) (g : Group S) → (settings_changed w m g).failed ≡ g.failed
  unfolding settings_changed keep_failed_down
  settings_failed m g = elim (Bool-cases (among m g.failed)) [
    | inl e ↦ rw e refl
    | inr e ↦ rw e refl
  ]

  Way-of : (xs : List Event) (g : Group S) → IsOneWay g → Way g (run w xs g)
  unfolding run happen push_error_frame
  Way-of [] g h = record { chain = refl; new = tt; distinct = (tt, tt) }
  Way-of (settings_of m ∷ xs) g h =
      stays g (settings_changed w m g) (run w xs (settings_changed w m g)) (settings_active m g h)
        (settings_failed m g) (Way-of xs (settings_changed w m g) (settings-IsOneWay m g h))
  Way-of (error_pushed ∷ xs) g h =
      elim (Bool-cases (w.active (w.push_error g.switcher) == w.active g.switcher)) [
        | inl e ↦
            (let g' : Group S = record g { switcher = w.push_error g.switcher } in
              rw e (
                stays g g' (run w xs g') ((==_iff _ _).0 e) refl
                  (Way-of xs g' (stayed-IsOneWay g h ((==_iff _ _).0 e)))))
        | inr e ↦
            (let g' : Group S = record {
              switcher = w.push_error g.switcher;
              failed = w.active g.switcher ∷ g.failed;
            } in
              rw e (
                leaves_member g g' (run w xs g') (pushed-IsOneWay g h e) refl
                  (Way-of xs g' (pushed-IsOneWay g h e))))
      ]

  -- With pipecat's switcher, the failovers of a call follow one another from the member it starts on to
  -- the one it ends on, and the members that it was on are all different, whatever errors and changes of
  -- settings come in between.
  pub never_back :
      (xs : List Event) (s : S)
      → Chain
          (w.active s)
          (run w xs (record { switcher = s; failed = [] })).0
          (w.active (run w xs (record { switcher = s; failed = [] })).1.switcher)
        × AllDistinct (
            w.active s ∷ map (λ f. f.to_member) (run w xs (record { switcher = s; failed = [] })).0)
  never_back xs s =
      let way : Way (record { switcher = s; failed = [] })
          (run w xs (record { switcher = s; failed = [] })) =
        Way-of xs (record { switcher = s; failed = [] })
          (record { down = λ n k. ground arith; on = refl }) in
      (way.chain, way.distinct)
