-- ===== src/Keeper/Loop/Due.antt =====
-- What a tick asks for, and in which order.
pub mod Asking
use ponshot.Keeper.Loop.Due.Asking.{
  none_left, taken, skipped, Asked, Asks, and_then-Asks, done-Asks, Asks-if, each, for_each-Asks,
}
use ponshot.Keeper.Reason.{Caught}
use mathlib.Core.List.{append-nil, append_assoc}
use ponshot.Base.{
  true, false, ◌||◌, List, [], ◌∷◌, ◌++◌, ◌≡◌, ◌∙◌, sym, Bool, ℕ, if◌then◌else◌, inl, ap, ◌==◌,
  some, inr, ◌||◌, none, Bool-cases, ltb, refl, length, arith,
}
use ponshot.Keeper.State.{
  cancel_round, Action, lock_round, settle_round, execute_round, sweep_to_burner, is_handled,
  buy_and_burn,
}
use ponshot.Keeper.Tx.{SendArgs, Reply, ok, thrown, SendOutcome, returned, threw}
use ponshot.Keeper.Loop.{
  Keeper, Step, and_then, for_each, done, KeeperConfig, Answers, Work, args_of, is_idle, executes,
  request_only, request, sweep, buyback, run_buybacks, resolve, finish, cancel_one, execute, noting,
  after_cancel, note_execution, note_epoch, wind_up, settle_rest, do_work, survey, tick, look,
}

-- What is due by the contract's answers, whatever becomes of each call.
abbrev pub due_sweep : Answers → List SendArgs
due_sweep a = elim a.burn_allocated [
  | ok allocated ↦ if allocated == 0 then [] else args_of sweep_to_burner none ∷ []
  | thrown e ↦ []
]

abbrev pub due_buyback : KeeperConfig → Answers → ℕ → List SendArgs
due_buyback cfg a index = elim (a.target index) [
  | ok t ↦
      if t.token == 0 || ltb t.allocated cfg.min_buyback_wei
      then []
      else args_of (buy_and_burn index) none ∷ []
  | thrown e ↦ []
]

abbrev pub due_buybacks : KeeperConfig → Answers → List SendArgs
due_buybacks cfg a = if cfg.has_burner then each (due_buyback cfg a) (0 ∷ 1 ∷ []) else []

abbrev pub due_each : Action → List ℕ → List SendArgs
due_each action epochs = each (λ epoch. args_of action (some epoch) ∷ []) epochs

abbrev pub due_late : KeeperConfig → Answers → List SendArgs
due_late cfg a = elim a.still [
  | thrown e ↦ []
  | ok still ↦
      due_each lock_round still.0
      ++ (due_each settle_round still.1 ++ (due_sweep a ++ due_buybacks cfg a))
]

abbrev pub due_work : KeeperConfig → Answers → Work → List SendArgs
due_work cfg a w =
    if is_idle w
    then []
    else (if executes w then args_of execute_round none ∷ [] else [])
      ++ (due_each cancel_round w.cancellable ++ due_late cfg a)

abbrev pub due : KeeperConfig → Answers → List SendArgs
due cfg a = elim a.head [
  | thrown e ↦ []
  | ok h ↦
      if h.current_epoch == 0 then [] else elim a.work [ thrown e ↦ [] | ok w ↦ due_work cfg a w ]
]

Asks-reply {ℓ} :
    {A : Type ℓ} {p : A → List SendArgs} {q : Caught → List SendArgs} (r : Reply A) (f : A → Step)
    (g : Caught → Step)
    → ((x : A) → Asks (p x) (f x))
    → ((e : Caught) → Asks (q e) (g e))
    → Asks
        (elim r [ ok x ↦ p x | thrown e ↦ q e ])
        (λ k. elim r [ ok x ↦ f x k | thrown e ↦ g e k ])
Asks-reply (ok x) f g u v = u x
Asks-reply (thrown e) f g u v = v e

after_cancel_requests :
    (epoch now : ℕ) (o : SendOutcome) (k : Keeper)
    → (after_cancel epoch now o k).requests ≡ k.requests
after_cancel_requests epoch now (returned r) k = ground arith
after_cancel_requests epoch now (threw e) k = refl

module _ (cfg : KeeperConfig) (a : Answers) where
  request_only-Asks : (args : SendArgs) → Asks (args ∷ []) (request_only cfg a args)
  unfolding request_only request
  request_only-Asks args k = (args ∷ [], refl, taken args none_left)

  sweep-Asks : Asks (due_sweep a) (sweep cfg a)
  unfolding sweep
  sweep-Asks =
      Asks-reply a.burn_allocated _ _
        (λ n.
          Asks-if (n == 0) done (request_only cfg a (args_of sweep_to_burner none)) done-Asks
            (request_only-Asks (args_of sweep_to_burner none)))
        (λ e. done-Asks)

  buyback-Asks : (index : ℕ) → Asks (due_buyback cfg a index) (buyback cfg a index)
  unfolding buyback
  buyback-Asks index =
      Asks-reply (a.target index) _ _
        (λ t.
          Asks-if (t.token == 0 || ltb t.allocated cfg.min_buyback_wei) done
            (request_only cfg a (args_of (buy_and_burn index) none)) done-Asks
            (request_only-Asks (args_of (buy_and_burn index) none)))
        (λ e. done-Asks)

  run_buybacks-Asks :
      Asks
        (if cfg.has_burner then each (due_buyback cfg a) (0 ∷ 1 ∷ []) else [])
        (run_buybacks cfg a)
  unfolding run_buybacks
  run_buybacks-Asks =
      Asks-if cfg.has_burner (for_each (buyback cfg a) (0 ∷ 1 ∷ [])) done
        (for_each-Asks (due_buyback cfg a) (buyback cfg a) (0 ∷ 1 ∷ []) buyback-Asks) done-Asks

  cancel_one-Asks :
      (epoch : ℕ) → Asks (args_of cancel_round (some epoch) ∷ []) (cancel_one cfg a epoch)
  unfolding cancel_one request
  cancel_one-Asks epoch k = elim (Bool-cases (is_handled epoch k.sender.state)) [
    | inl marked ↦
        rw (cancel_one, marked) ([], sym (append-nil k.requests), skipped _ refl none_left)
    | inr new ↦
        let args = args_of cancel_round (some epoch) in
        let end = request cfg a args k in
        rw (cancel_one, new)
          (
            args ∷ [],
            after_cancel_requests epoch (a.clock (length end.1.requests)) end.0 end.1,
            taken args none_left,
          )
  ]

  execute-Asks :
      (w : Work)
      → Asks (if executes w then args_of execute_round none ∷ [] else []) (execute cfg a w)
  unfolding execute
  execute-Asks w =
      Asks-if (executes w)
        (and_then (request_only cfg a (args_of execute_round none)) (noting (note_execution a)))
        done
        (and_then-Asks (args_of execute_round none ∷ []) []
          (request_only cfg a (args_of execute_round none)) (noting (note_execution a))
          (request_only-Asks (args_of execute_round none)) done-Asks)
        done-Asks

  resolve-Asks :
      (action : Action) (epochs : List ℕ)
      → Asks (due_each action epochs) (for_each (resolve cfg a action) epochs)
  resolve-Asks action epochs =
      for_each-Asks (λ epoch. args_of action (some epoch) ∷ []) (resolve cfg a action) epochs
        (λ epoch. request_only-Asks (args_of action (some epoch)))

  wind_up-Asks : (epoch : ℕ) → Asks (due_sweep a ++ due_buybacks cfg a) (wind_up cfg a epoch)
  wind_up-Asks epoch =
      and_then-Asks (due_sweep a) (due_buybacks cfg a) (sweep cfg a)
        (and_then (run_buybacks cfg a) (noting (note_epoch epoch))) sweep-Asks
        (rw (sym (append-nil (due_buybacks cfg a))) (
          and_then-Asks (due_buybacks cfg a) [] (run_buybacks cfg a) (noting (note_epoch epoch))
            run_buybacks-Asks done-Asks))

  finish-Asks : (epoch : ℕ) → Asks (due_late cfg a) (finish cfg a epoch)
  unfolding finish
  finish-Asks epoch =
      Asks-reply a.still
        (λ still.
          and_then (for_each (resolve cfg a lock_round) still.0) (settle_rest cfg a epoch still.1))
        (λ e k. (thrown e, k))
        (λ still.
          and_then-Asks (due_each lock_round still.0) _
            (for_each (resolve cfg a lock_round) still.0) (settle_rest cfg a epoch still.1)
            (resolve-Asks lock_round still.0)
            (and_then-Asks (due_each settle_round still.1) (due_sweep a ++ due_buybacks cfg a)
              (for_each (resolve cfg a settle_round) still.1) (wind_up cfg a epoch)
              (resolve-Asks settle_round still.1) (wind_up-Asks epoch)))
        (λ e k. ([], sym (append-nil k.requests), none_left))

  do_work-Asks : (epoch : ℕ) (w : Work) → Asks (due_work cfg a w) (do_work cfg a epoch w)
  unfolding do_work
  do_work-Asks epoch w =
      Asks-if (is_idle w) done
        (and_then (execute cfg a w)
          (and_then (for_each (cancel_one cfg a) w.cancellable) (finish cfg a epoch)))
        done-Asks
        (and_then-Asks _ (due_each cancel_round w.cancellable ++ due_late cfg a) (execute cfg a w)
          (and_then (for_each (cancel_one cfg a) w.cancellable) (finish cfg a epoch))
          (execute-Asks w)
          (and_then-Asks (due_each cancel_round w.cancellable) (due_late cfg a)
            (for_each (cancel_one cfg a) w.cancellable) (finish cfg a epoch)
            (for_each-Asks (λ e. args_of cancel_round (some e) ∷ []) (cancel_one cfg a)
              w.cancellable cancel_one-Asks)
            (finish-Asks epoch)))

  survey-Asks : Asks (due cfg a) (survey cfg a)
  unfolding survey
  survey-Asks k =
      Asks-reply a.head
        (λ h k.
          let seen = look h k in
          if h.current_epoch == 0 then done seen else elim a.work [
            | thrown e ↦ (thrown e, seen)
            | ok w ↦ do_work cfg a h.current_epoch w (record seen { pending = some w })
          ])
        (λ e k. (thrown e, k))
        (λ h.
          Asks-if (h.current_epoch == 0) (λ k. done (look h k)) _ done-Asks
            (Asks-reply a.work
              (λ w k. do_work cfg a h.current_epoch w (record (look h k) { pending = some w }))
              (λ e k. (thrown e, look h k))
              (λ w k. do_work-Asks h.current_epoch w (record (look h k) { pending = some w }))
              (λ e k. ([], sym (append-nil k.requests), none_left))))
        (λ e k. ([], sym (append-nil k.requests), none_left)) k

-- Every call of `send` in a tick is one that is due by the contracts' answers, and the calls come
-- in that order: execution, cancellations, what execution left unlocked and unsettled, the sweep,
-- the buybacks. A tick that ends without an exception leaves out nothing but cancellations; one
-- that does not hold the lock calls nothing.
pub tick-Asks :
    (cfg : KeeperConfig) (a : Answers) (k : Keeper)
    → Asked
        (if (if k.holds_lock then a.renewed else a.acquired) then due cfg a else [])
        k
        (tick cfg a k)
unfolding tick
tick-Asks cfg a k =
    let held = if k.holds_lock then a.renewed else a.acquired in
    Asks-if held (survey cfg a) done (survey-Asks cfg a) done-Asks (record k { holds_lock = held })
