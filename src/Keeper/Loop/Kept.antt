-- ===== src/Keeper/Loop/Kept.antt =====
-- What the loop keeps of the durable state.
mod Parts
use ponshot.Keeper.Loop.Kept.Parts.{
  Bounded, Keeps, and_then-Keeps, for_each-Keeps, Keeps-if, Keeps-reply, noting-Keeps,
  after_cancel-Keeps, conclude-Keeps,
}
use ponshot.Base.{
  ℕ, ◌≡◌, refl, inl, inr, Bool, true, false, Bool-cases, List, [], ◌∷◌, if◌then◌else◌, some, none,
  ◌||◌, ◌==◌, ltb,
}
use ponshot.Keeper.State.{
  cancel_round, execute_round, lock_round, settle_round, sweep_to_burner, buy_and_burn, Action,
  is_handled, KeeperState,
}
use ponshot.Keeper.State.Bounds.{IsBounded, update-IsBounded, mark_handled_lem}
use ponshot.Keeper.Reason.{Caught}
use ponshot.Keeper.Tx.{SendArgs, Reply, ok, thrown, SendOutcome, returned, threw}
use ponshot.Keeper.Tx.Limits.{send-IsBounded}
use ponshot.Keeper.Loop.{
  Keeper, Step, KeeperConfig, Answers, Work, and_then, for_each, done, noting, request,
  request_only, args_of, after_cancel, cancel_one, executes, note_execution, note_epoch, execute,
  sweep, buyback, run_buybacks, resolve, wind_up, settle_rest, finish, is_idle, do_work, look,
  survey, tick, run_once, run_all, run, is_failed, conclude,
}

module _ (cfg : KeeperConfig) (a : Answers) where
  request-Keeps : (args : SendArgs) (k : Keeper) → Bounded k → Bounded (request cfg a args k).1
  unfolding request
  request-Keeps args k b = send-IsBounded cfg.options args _ _ k.sender b

  request_only-Keeps : (args : SendArgs) → Keeps (request_only cfg a args)
  unfolding request_only
  request_only-Keeps args k b = request-Keeps args k b

  cancel_one-Keeps : (epoch : ℕ) → Keeps (cancel_one cfg a epoch)
  unfolding cancel_one
  cancel_one-Keeps epoch k b = elim (Bool-cases (is_handled epoch k.sender.state)) [
    | inl marked ↦ rw (cancel_one, marked) b
    | inr new ↦
        rw (cancel_one, new)
          (after_cancel-Keeps epoch _ _ _ (request-Keeps (args_of cancel_round (some epoch)) k b))
  ]

  execute-Keeps : (w : Work) → Keeps (execute cfg a w)
  unfolding execute
  execute-Keeps w =
      Keeps-if (executes w)
        (and_then (request_only cfg a (args_of execute_round none)) (noting (note_execution a)))
        done
        (and_then-Keeps (request_only cfg a (args_of execute_round none))
          (noting (note_execution a)) (request_only-Keeps (args_of execute_round none))
          (noting-Keeps (note_execution a) (λ k s. refl)))
        (λ k b. b)

  sweep-Keeps : Keeps (sweep cfg a)
  unfolding sweep
  sweep-Keeps =
      Keeps-reply a.burn_allocated
        (λ n k. if n == 0 then done k else request_only cfg a (args_of sweep_to_burner none) k)
        (λ e. done)
        (λ n.
          Keeps-if (n == 0) done (request_only cfg a (args_of sweep_to_burner none)) (λ k b. b)
            (request_only-Keeps (args_of sweep_to_burner none)))
        (λ e k b. b)

  buyback-Keeps : (index : ℕ) → Keeps (buyback cfg a index)
  unfolding buyback
  buyback-Keeps index =
      let buy = request_only cfg a (args_of (buy_and_burn index) none) in
      Keeps-reply (a.target index)
        (λ t k. if t.token == 0 || ltb t.allocated cfg.min_buyback_wei then done k else buy k)
        (λ e. done)
        (λ t.
          Keeps-if (t.token == 0 || ltb t.allocated cfg.min_buyback_wei) done buy (λ k b. b)
            (request_only-Keeps (args_of (buy_and_burn index) none)))
        (λ e k b. b)

  run_buybacks-Keeps : Keeps (run_buybacks cfg a)
  unfolding run_buybacks
  run_buybacks-Keeps =
      Keeps-if cfg.has_burner (for_each (buyback cfg a) (0 ∷ 1 ∷ [])) done
        (for_each-Keeps (buyback cfg a) (0 ∷ 1 ∷ []) buyback-Keeps) (λ k b. b)

  resolve-Keeps :
      (action : Action) (epochs : List ℕ) → Keeps (for_each (resolve cfg a action) epochs)
  resolve-Keeps action epochs =
      for_each-Keeps (resolve cfg a action) epochs
        (λ epoch. request_only-Keeps (args_of action (some epoch)))

  wind_up-Keeps : (epoch : ℕ) → Keeps (wind_up cfg a epoch)
  wind_up-Keeps epoch =
      and_then-Keeps (sweep cfg a) (and_then (run_buybacks cfg a) (noting (note_epoch epoch)))
        sweep-Keeps
        (and_then-Keeps (run_buybacks cfg a) (noting (note_epoch epoch)) run_buybacks-Keeps
          (noting-Keeps (note_epoch epoch) (λ k s. refl)))

  finish-Keeps : (epoch : ℕ) → Keeps (finish cfg a epoch)
  unfolding finish
  finish-Keeps epoch =
      Keeps-reply a.still
        (λ still.
          and_then (for_each (resolve cfg a lock_round) still.0) (settle_rest cfg a epoch still.1))
        (λ e k. (thrown e, k))
        (λ still.
          and_then-Keeps (for_each (resolve cfg a lock_round) still.0)
            (settle_rest cfg a epoch still.1) (resolve-Keeps lock_round still.0)
            (and_then-Keeps (for_each (resolve cfg a settle_round) still.1) (wind_up cfg a epoch)
              (resolve-Keeps settle_round still.1) (wind_up-Keeps epoch)))
        (λ e k b. b)

  do_work-Keeps : (epoch : ℕ) (w : Work) → Keeps (do_work cfg a epoch w)
  unfolding do_work
  do_work-Keeps epoch w =
      let cancels = for_each (cancel_one cfg a) w.cancellable in
      Keeps-if (is_idle w) done (and_then (execute cfg a w) (and_then cancels (finish cfg a epoch)))
        (λ k b. b)
        (and_then-Keeps (execute cfg a w) (and_then cancels (finish cfg a epoch)) (execute-Keeps w)
          (and_then-Keeps cancels (finish cfg a epoch)
            (for_each-Keeps (cancel_one cfg a) w.cancellable cancel_one-Keeps)
            (finish-Keeps epoch)))

  survey-Keeps : Keeps (survey cfg a)
  unfolding survey
  survey-Keeps =
      Keeps-reply a.head
        (λ h k.
          let seen = look h k in
          if h.current_epoch == 0 then done seen else elim a.work [
            | thrown e ↦ (thrown e, seen)
            | ok w ↦ do_work cfg a h.current_epoch w (record seen { pending = some w })
          ])
        (λ e k. (thrown e, k))
        (λ h.
          Keeps-if (h.current_epoch == 0) (λ k. done (look h k)) _ (λ k b. b)
            (Keeps-reply a.work
              (λ w k. do_work cfg a h.current_epoch w (record (look h k) { pending = some w }))
              (λ e k. (thrown e, look h k))
              (λ w k. do_work-Keeps h.current_epoch w (record (look h k) { pending = some w }))
              (λ e k b. b)))
        (λ e k b. b)

  tick-Keeps : Keeps (tick cfg a)
  unfolding tick
  tick-Keeps k b =
      let held = if k.holds_lock then a.renewed else a.acquired in
      Keeps-if held (survey cfg a) done survey-Keeps (λ k b. b) (record k { holds_lock = held }) b

  run_once-Keeps : (k : Keeper) → Bounded k → Bounded (run_once cfg a k)
  unfolding run_once
  run_once-Keeps k b = conclude-Keeps a (tick cfg a k).0 (tick cfg a k).1 (tick-Keeps k b)

run_all-Keeps :
    (cfg : KeeperConfig) (ticks : List Answers) (k : Keeper)
    → Bounded k
    → Bounded (run_all cfg ticks k)
unfolding run_all
run_all-Keeps cfg [] k b = b
run_all-Keeps cfg (a ∷ rest) k b =
    run_all-Keeps cfg rest (run_once cfg a k) (run_once-Keeps cfg a k b)

-- However long the keeper runs, and whatever it is answered, the state that it writes to its file
-- stays within its limits: at most 100 transactions and 500 handled keys.
pub run-IsBounded :
    (cfg : KeeperConfig) (ticks : List Answers) (k : Keeper)
    → IsBounded k.sender.state
    → IsBounded (run cfg ticks k).sender.state
unfolding run
run-IsBounded cfg ticks k b = run_all-Keeps cfg ticks (record k { running = true }) b
