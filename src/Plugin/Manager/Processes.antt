-- ===== src/Plugin/Manager/Processes.antt =====
-- No plugin process is lost: what runs is what the manager's map holds.
use locksmith.Common.{
  ℕ, ◌<◌, ◌≡◌, ◌∙◌, refl, ap, sym, subst, true, false, ◌||◌, List, [], ◌∷◌, inl, inr, Option, none,
  some, Result, ok, err, arith, ◌==◌, Bool-cases, Option-cases,
}
use locksmith.Common.Text.{Text}
use locksmith.Common.Assoc.{
  Map, lookup, delete, DistinctKeys, DistinctKeys-insert, DistinctKeys-delete, lookup-cons_self,
  delete-cons_self,
}
use locksmith.Plugin.Compat.{CompatValidator, Info}
use locksmith.Plugin.Manager.{
  Outcome, no_client, no_dispense, no_provider, provides, Running, Manager, new_manager,
  kill_client, start_client, describe, attach, launch, kill_loop, kill, kill_one, Call, launches,
  kills_one, kills, step, run,
}
use locksmith.Plugin.Manager.Clients.{
  has_client, OwnClients, killed_alive, started_alive, has_client-insert, OwnClients-insert,
  has_client-delete, no_client-delete, OwnClients-delete,
}

module _ {P : Type 0} where
  pub record IsSound (m : Manager P) : Type 0 where
    pub distinct : DistinctKeys m.plugins
    pub own : OwnClients m.plugins
    pub started : (x : ℕ) → has_client x m.plugins ≡ true → x < m.next
    pub exact : (x : ℕ) → m.alive x ≡ has_client x m.plugins

  -- A process that is not in the map, started and killed again, changes nothing.
  pub killed_again :
      (m : Manager P) (x : ℕ)
      → IsSound m
      → (kill_client m.next (start_client m)).alive x ≡ m.alive x
  unfolding kill_client start_client
  killed_again m x s = elim (Bool-cases (x == m.next)) [
    | inl same ↦
        let gone : has_client x m.plugins ≡ false = elim (Bool-cases (has_client x m.plugins)) [
          | inr no_such ↦ no_such
          | inl there ↦ absurd (ground (arith, s.started x there))
        ] in
        rw same (sym (s.exact x ∙ gone))
    | inr other ↦ rw other
  ]

  failed_launch-IsSound :
      (m : Manager P) → IsSound m → IsSound (kill_client m.next (start_client m))
  failed_launch-IsSound m s = record {
    distinct = unfold kill_client start_client in s.distinct;
    own = unfold kill_client start_client in s.own;
    started = unfold kill_client start_client in λ x h. omega (arith, s.started x h);
    exact = λ x. killed_again m x s ∙ s.exact x ∙ (unfold kill_client start_client in refl);
  }

  attach-IsSound :
      (v : CompatValidator) (t : Text) (o : Outcome P) (m : Manager P)
      → lookup t m.plugins ≡ none
      → IsSound m
      → IsSound (attach v t m.next o (start_client m)).0
  unfolding attach
  attach-IsSound v t (no_client e) m l s = failed_launch-IsSound m s
  attach-IsSound v t (no_dispense e) m l s = failed_launch-IsSound m s
  attach-IsSound v t no_provider m l s = failed_launch-IsSound m s
  attach-IsSound v t (provides p i) m l s =
      let rp = describe v m.next p i in
      let fresh : has_client m.next m.plugins ≡ false =
        elim (Bool-cases (has_client m.next m.plugins)) [
          | inr no_such ↦ no_such
          | inl there ↦ absurd (omega (arith, s.started m.next there))
        ] in
      let c : rp.client ≡ m.next = describe-client v m.next p i in
      record {
        distinct = unfold start_client in DistinctKeys-insert t rp m.plugins s.distinct;
        own =
            unfold start_client in
            OwnClients-insert t rp m.plugins l (ap (λ x. has_client x m.plugins) c ∙ fresh) s.own;
        started =
            unfold start_client in
            λ x h.
              let split : ((x == rp.client) || has_client x m.plugins) ≡ true =
                sym (has_client-insert x t rp m.plugins l) ∙ h in
              elim (Bool-cases (has_client x m.plugins)) [
                | inl old ↦ omega (arith, s.started x old)
                | inr new ↦ ground arith
              ];
        exact =
            unfold start_client in
            λ x.
              (rw (s.exact x, c) (started_alive x m.next (has_client x m.plugins)))
              ∙ sym (has_client-insert x t rp m.plugins l);
      }
    where
      describe-client :
          (v : CompatValidator) (c : ℕ) (p : P) (i : Result Text (Option Info))
          → (describe v c p i).client ≡ c
      describe-client v c p (ok i) = unfold describe in refl
      describe-client v c p (err e) = unfold describe in refl

  pub launch-IsSound :
      (v : CompatValidator) (launcher : Text → Outcome P) (t binary : Text) (m : Manager P)
      → IsSound m
      → IsSound (launch v launcher t binary m).0
  unfolding launch
  launch-IsSound v launcher t binary m s = elim (Option-cases (lookup t m.plugins)) [
    | inr (rp, there) ↦ rw (there, launch) s
    | inl absent ↦ rw (absent, launch) (attach-IsSound v t (launcher binary) m absent s)
  ]

  -- Killing the process of one plugin and taking the plugin out.
  unfoldable pub take_out : Text → Running P → Manager P → Manager P
  take_out k rp m = record (kill_client rp.client m) { plugins = delete k m.plugins }

  take_out-IsSound :
      (k : Text) (rp : Running P) (m : Manager P)
      → lookup k m.plugins ≡ some rp
      → IsSound m
      → IsSound (take_out k rp m)
  unfolding take_out kill_client
  take_out-IsSound k rp m l s = record {
    distinct = DistinctKeys-delete k m.plugins s.distinct;
    own = OwnClients-delete k m.plugins s.own;
    started = λ x h.
        let e = has_client-delete x k rp m.plugins s.distinct s.own l in
        elim (Bool-cases (has_client x m.plugins)) [
          | inl there ↦ s.started x there
          | inr gone ↦ absurd (cc (no_client-delete k x m.plugins gone))
        ];
    exact = λ x.
        rw (s.exact x) (killed_alive x rp.client (has_client x m.plugins))
        ∙ sym (has_client-delete x k rp m.plugins s.distinct s.own l);
  }

  pub kill_one-IsSound : (t : Text) (m : Manager P) → IsSound m → IsSound (kill_one t m)
  unfolding kill_one
  kill_one-IsSound t m s = elim (Option-cases (lookup t m.plugins)) [
    | inl absent ↦ rw (absent, kill_one) s
    | inr (rp, there) ↦ rw (there, kill_one) (unfold take_out in take_out-IsSound t rp m there s)
  ]

  kill_loop_all :
      (es : Map (Running P)) (m : Manager P)
      → m.plugins ≡ es
      → IsSound m
      → IsSound (kill_loop es m) × ((kill_loop es m).plugins ≡ [])
  unfolding kill_loop take_out
  kill_loop_all [] m e s = (s, e)
  kill_loop_all ((k, rp) ∷ es) m e s =
      let there : lookup k m.plugins ≡ some rp = rw e (lookup-cons_self k rp es) in
      let d : DistinctKeys ((k, rp) ∷ es) = subst (λ ps. DistinctKeys ps) e s.distinct in
      let rest : delete k m.plugins ≡ es = rw e (delete-cons_self k rp es d.0) in
      kill_loop_all es (take_out k rp m) rest (take_out-IsSound k rp m there s)

  no_client-nil : (x : ℕ) (es : Map (Running P)) → es ≡ [] → has_client x es ≡ false
  unfolding has_client
  no_client-nil x [] e = refl
  no_client-nil x (p ∷ es) e = absurd (cc)

  -- `Kill` ends every plugin process and empties the map.
  pub kill-ends_all :
      (m : Manager P) → IsSound m → ((kill m).plugins ≡ []) × ((x : ℕ) → (kill m).alive x ≡ false)
  unfolding kill
  kill-ends_all m s =
      let (sound, empty) = kill_loop_all m.plugins m refl s in
      (empty, λ x. sound.exact x ∙ no_client-nil x (kill_loop m.plugins m).plugins empty)

  pub kill-IsSound : (m : Manager P) → IsSound m → IsSound (kill m)
  unfolding kill
  kill-IsSound m s = (kill_loop_all m.plugins m refl s).0

  step-IsSound :
      (v : CompatValidator) (launcher : Text → Outcome P) (m : Manager P) (c : Call)
      → IsSound m
      → IsSound (step v launcher m c)
  unfolding step
  step-IsSound v launcher m (launches t binary) s = launch-IsSound v launcher t binary m s
  step-IsSound v launcher m (kills_one t) s = kill_one-IsSound t m s
  step-IsSound v launcher m kills s = kill-IsSound m s

  run-IsSound_from :
      (v : CompatValidator) (launcher : Text → Outcome P) (m : Manager P) (cs : List Call)
      → IsSound m
      → IsSound (run v launcher m cs)
  unfolding run
  run-IsSound_from v launcher m [] s = s
  run-IsSound_from v launcher m (c ∷ cs) s =
      run-IsSound_from v launcher (step v launcher m c) cs (step-IsSound v launcher m c s)

  pub new_manager-IsSound : IsSound (new_manager {P = P})
  unfolding new_manager has_client
  new_manager-IsSound = record {
    distinct = tt;
    own = tt;
    started = λ x h. absurd (cc);
    exact = λ x. refl;
  }

  -- After any calls of `Launch`, `KillOne` and `Kill` on a new manager, however the launches end, the
  -- plugin processes that run are exactly those of the plugins in the map, each of its own.
  pub run-IsSound :
      (v : CompatValidator) (launcher : Text → Outcome P) (cs : List Call)
      → IsSound (run v launcher new_manager cs)
  run-IsSound v launcher cs = run-IsSound_from v launcher new_manager cs new_manager-IsSound
