-- ===== src/Server/Serve/History.antt =====
-- ServeHTTP over any sequence of requests: what becomes of the rules.
use pevo_pinner.Prelude.{
  ℕ, ◌≡◌, refl, sym, ap, ◌∙◌, Option, none, some, List, [], ◌∷◌, ◌++◌, Option-cases, Bool-cases,
  inl, inr, ◌-◌,
}
use pevo_pinner.Cid.{validate_cid}
use pevo_pinner.Prelude.Text.{is_empty, Text, IsDistinct}
use pevo_pinner.AtomicFile.{Faults}
use pevo_pinner.AutoPin.Rule.{AutoPinRule}
use pevo_pinner.AutoPin.Manager.{AutoPinManager}
use pevo_pinner.AutoPin.Identity.{
  ids, Call, add, put, delete, enable, step, run, DrawsFresh, run-IsDistinct,
}
use pevo_pinner.Backend.{IpfsBackend}
use pevo_pinner.Server.{
  Server, remaining, handle_papers, handle_pin, handle_unpin, handle_pin_all, handle_status,
}
use pevo_pinner.Server.Rules.{
  handle_add_rule, handle_update_rule, handle_delete_rule, handle_set_all_rules,
  handle_evaluate_rules,
}
use pevo_pinner.Server.Routes.{Route, dispatch}
use pevo_pinner.Server.Routes.Meaning.{
  RuleChange, no_change, adds, puts, deletes, sets_all, change_of, meaning,
}
use pevo_pinner.Server.Routes.Meaning.Five.{dispatch-meaning}
use pevo_pinner.Server.Serve.{Moment, ApiRequest, recovered, serve_route, serve_http, serve_all}

-- The call of the manager of rules for a change of the rules. Without a rule in its body, a request
-- that adds or puts one makes no call.
abbrev pub calls_for : {b : IpfsBackend} → RuleChange → Moment b → ApiRequest → List (Faults × Call)
calls_for no_change t q = []
calls_for adds t q = elim q.body [ none ↦ [] | some r ↦ (t.faults, add t.new_id r) ∷ [] ]
calls_for (puts id) t q = elim q.body [ none ↦ [] | some r ↦ (t.faults, put id r) ∷ [] ]
calls_for (deletes id) t q = (t.faults, delete id) ∷ []
calls_for (sets_all enabled) t q = (t.faults, enable enabled) ∷ []

-- The calls that the methods and the paths of some requests ask for.
abbrev pub history : {b : IpfsBackend} → List (Moment b × ApiRequest) → List (Faults × Call)
history [] = []
history ((t, q) ∷ qs) = calls_for (meaning q.method q.path) t q ++ history qs

module _ (b : IpfsBackend) (marshal : List AutoPinRule → Option Text)
    (unmarshal : Text → Option (List AutoPinRule)) (split_host_port : Text → Option (Text × Text))
    (lower : Text → Text) (parse_date : Text → Option ℕ) where
  -- The rules are those of the calls, and the discovery and the settings are as they were.
  abbrev pub Follows : List (Faults × Call) → (s now : Server b) → Type 0
  Follows cs s now =
      (now.autopin ≡ run marshal unmarshal s.autopin cs)
      × (now.discovery ≡ s.discovery)
      × (now.kind ≡ s.kind)
      × (now.refresh ≡ s.refresh)

  handle_pin-Follows :
      (t : Moment b) (cid : Text) (s : Server b) → Follows [] s (handle_pin b t.call cid s).0
  unfolding handle_pin run
  handle_pin-Follows t cid s = elim (Bool-cases (is_empty cid)) [
    | inl e ↦ rw (e, handle_pin) (refl, refl, refl, refl)
    | inr e ↦ elim (Bool-cases (validate_cid cid)) [
      | inl f ↦ rw (e, f, handle_pin) (refl, refl, refl, refl)
      | inr f ↦ rw (e, f, handle_pin) (refl, refl, refl, refl)
    ]
  ]

  handle_unpin-Follows :
      (t : Moment b) (cid : Text) (s : Server b) → Follows [] s (handle_unpin b t.call cid s).0
  unfolding handle_unpin run
  handle_unpin-Follows t cid s = elim (Bool-cases (is_empty cid)) [
    | inl e ↦ rw (e, handle_unpin) (refl, refl, refl, refl)
    | inr e ↦ elim (Bool-cases (validate_cid cid)) [
      | inl f ↦ rw (e, f, handle_unpin) (refl, refl, refl, refl)
      | inr f ↦ rw (e, f, handle_unpin) (refl, refl, refl, refl)
    ]
  ]

  handle_status-Follows :
      (t : Moment b) (s : Server b)
      → Follows [] s
          (recovered b marshal unmarshal split_host_port lower parse_date s
            (handle_status b t.call t.now s)).0
  unfolding handle_status run
  handle_status-Follows t s = elim (Option-cases (remaining s.refresh (t.now - s.start_time))) [
    | inl e ↦ rw (e, handle_status) (refl, refl, refl, refl)
    | inr (left, e) ↦ rw (e, handle_status) (refl, refl, refl, refl)
  ]

  -- A body that cannot be decoded changes nothing.
  add_rule-Follows :
      (t : Moment b) (s : Server b) (body : Option AutoPinRule)
      → Follows
          (elim body [ none ↦ [] | some r ↦ (t.faults, add t.new_id r) ∷ [] ])
          s
          (handle_add_rule b marshal unmarshal t.faults t.new_id body s).0
  unfolding handle_add_rule run step
  add_rule-Follows t s none = (refl, refl, refl, refl)
  add_rule-Follows t s (some r) = (refl, refl, refl, refl)

  update_rule-Follows :
      (t : Moment b) (id : Text) (s : Server b) (body : Option AutoPinRule)
      → Follows
          (elim body [ none ↦ [] | some r ↦ (t.faults, put id r) ∷ [] ])
          s
          (handle_update_rule b marshal unmarshal t.faults id body s).0
  unfolding handle_update_rule run step
  update_rule-Follows t id s none = (refl, refl, refl, refl)
  update_rule-Follows t id s (some r) = (refl, refl, refl, refl)

  serve_route-Follows :
      (r : Route) (t : Moment b) (q : ApiRequest) (s : Server b)
      → Follows
          (calls_for (change_of r) t q)
          s
          (serve_route b marshal unmarshal split_host_port lower parse_date r t q s).0
  unfolding serve_route run step handle_papers handle_pin_all handle_add_rule handle_update_rule
      handle_delete_rule handle_set_all_rules handle_evaluate_rules
  serve_route-Follows Route.papers t q s = (refl, refl, refl, refl)
  serve_route-Follows (Route.pin cid) t q s = handle_pin-Follows t cid s
  serve_route-Follows (Route.unpin cid) t q s = handle_unpin-Follows t cid s
  serve_route-Follows Route.pin_all t q s = (refl, refl, refl, refl)
  serve_route-Follows Route.status t q s = handle_status-Follows t s
  serve_route-Follows Route.get_rules t q s = (refl, refl, refl, refl)
  serve_route-Follows Route.add_rule t q s = add_rule-Follows t s q.body
  serve_route-Follows (Route.update_rule id) t q s = update_rule-Follows t id s q.body
  serve_route-Follows (Route.delete_rule id) t q s = (refl, refl, refl, refl)
  serve_route-Follows Route.enable_all t q s = (refl, refl, refl, refl)
  serve_route-Follows Route.disable_all t q s = (refl, refl, refl, refl)
  serve_route-Follows Route.evaluate t q s = (refl, refl, refl, refl)
  serve_route-Follows Route.ipfs_proxy t q s = (refl, refl, refl, refl)
  serve_route-Follows Route.static_files t q s = (refl, refl, refl, refl)
  serve_route-Follows Route.move_to_slash t q s = (refl, refl, refl, refl)
  serve_route-Follows Route.method_not_allowed t q s = (refl, refl, refl, refl)
  serve_route-Follows Route.not_found t q s = (refl, refl, refl, refl)

  run-append :
      (m : AutoPinManager) (cs ds : List (Faults × Call))
      → run marshal unmarshal m (cs ++ ds) ≡ run marshal unmarshal (run marshal unmarshal m cs) ds
  unfolding run
  run-append m [] ds = refl
  run-append m (c ∷ cs) ds = run-append (step marshal unmarshal m c) cs ds

  -- After any sequence of requests, whatever their methods, paths and bodies, the rules are those
  -- of the calls of the manager that the methods and the paths ask for, in their order (POST
  -- /api/autopin/rules adds the rule of the body, PUT and DELETE of /api/autopin/rules/{id} update
  -- and delete the rule with that ID, POST /api/autopin/enable-all and disable-all set all rules, a
  -- body that cannot be decoded and every other request change no rule), and the snapshot of the
  -- discovery, the kind of the backend and the refresh interval are as they were.
  pub serve_all-Follows :
      (qs : List (Moment b × ApiRequest)) (s : Server b)
      → Follows (history qs) s (serve_all b marshal unmarshal split_host_port lower parse_date qs s)
  unfolding serve_all serve_http run
  serve_all-Follows [] s = (refl, refl, refl, refl)
  serve_all-Follows ((t, q) ∷ qs) s =
      let r = dispatch q.method q.path in
      let now = (serve_route b marshal unmarshal split_host_port lower parse_date r t q s).0 in
      let (rules, items, kind, refresh) =
        rw (dispatch-meaning q.method q.path) at (serve_route-Follows r t q s) in
      let (rules', items', kind', refresh') = serve_all-Follows qs now in
      (
        rules'
            ∙ ap (λ m. run marshal unmarshal m (history qs)) rules
            ∙ sym (run-append s.autopin (calls_for (meaning q.method q.path) t q) (history qs)),
        items' ∙ items,
        kind' ∙ kind,
        refresh' ∙ refresh,
      )

  -- If every ID that is drawn is new at its moment, no sequence of requests gives two rules one ID.
  pub serve_all-IsDistinct :
      (qs : List (Moment b × ApiRequest)) (s : Server b)
      → IsDistinct (ids s.autopin.rules)
      → DrawsFresh marshal unmarshal s.autopin (history qs)
      → IsDistinct
          (ids (serve_all b marshal unmarshal split_host_port lower parse_date qs s).autopin.rules)
  serve_all-IsDistinct qs s d fresh =
      rw ((serve_all-Follows qs s).0)
        (run-IsDistinct marshal unmarshal s.autopin (history qs) d fresh)
