-- ===== src/Manager/Start.antt =====
-- What has happened when main calls mgr.Start, and when it comes to that.
use capi_wx_one.Base.{
  Bool, true, false, Option, none, some, List, [], ◌∷◌, ◌++◌, String, ◌≡◌, refl, sym, ◌∙◌, subst,
  is_empty, if◌then◌else◌,
}
use capi_wx_one.Manager.Run.{
  Flags, CertWatcher, Step, watched, got_config, made_manager, handled_signals, set_up_controller,
  set_up_webhook, added_watcher, added_healthz, added_readyz, started, Host, Run, pure, continue,
  ◌>>=◌, ◌>>◌, exit, when, perform, require, watch, add_watcher, start, webhooks_enabled,
  manager_options, main,
}

abbrev pub has_started : List Step → Bool
has_started [] = false
has_started (started ∷ t) = true
has_started (_ ∷ t) = has_started t

-- The steps in their order, put onto a trace, which has the last one first.
abbrev pub onto : List Step → List Step → List Step
onto [] t = t
onto (s ∷ steps) t = onto steps (s ∷ t)

abbrev pub steps_of : {A : Type 0} → (A → Step) → Option A → List Step
steps_of step none = []
steps_of step (some a) = step a ∷ []

abbrev pub step_if : Bool → Step → List Step
step_if test s = if test then s ∷ [] else []

module _ (host : Host) where
  abbrev pub watcher_of : String → String → String → Option CertWatcher
  watcher_of path name key =
      if is_empty path
      then none
      else some (record { cert_file = host.join path name; key_file = host.join path key })

  abbrev pub webhook_watcher : Flags → Option CertWatcher
  webhook_watcher flags =
      watcher_of flags.webhook_cert_path flags.webhook_cert_name flags.webhook_cert_key

  abbrev pub metrics_watcher : Flags → Option CertWatcher
  metrics_watcher flags =
      watcher_of flags.metrics_cert_path flags.metrics_cert_name flags.metrics_cert_key

  abbrev pub webhook_steps : List Step → List Step
  webhook_steps rest =
      step_if (webhooks_enabled host) (set_up_webhook "WXOneMachine")
      ++ (step_if (webhooks_enabled host) (set_up_webhook "WXOneMachineTemplate")
          ++ (step_if (webhooks_enabled host) (set_up_webhook "WXOneCluster")
              ++ (step_if (webhooks_enabled host) (set_up_webhook "WXOneClusterTemplate") ++ rest)))

  -- All that main does before and when it starts the manager.
  abbrev pub boot : Flags → List Step
  boot flags =
      steps_of watched (webhook_watcher flags)
      ++ (steps_of watched (metrics_watcher flags)
          ++ (got_config
              ∷ made_manager
                  (manager_options host flags (webhook_watcher flags) (metrics_watcher flags))
              ∷ handled_signals
              ∷ set_up_controller "WXOneCluster"
              ∷ set_up_controller "WXOneMachine"
              ∷ webhook_steps (
                  steps_of added_watcher (metrics_watcher flags)
                  ++ (steps_of added_watcher (webhook_watcher flags)
                      ++ (added_healthz ∷ added_readyz ∷ started ∷ [])))))

  abbrev pub HasVariable : String → Type 0
  HasVariable name = is_empty (host.getenv name) ≡ false

  -- Every call succeeds.
  abbrev pub Healthy : Type 0
  Healthy = (t : List Step) (s : Step) → host.succeeds t s ≡ true

  -- If the code starts the manager, then `P` holds and it has done exactly these steps; and if `P`
  -- holds and every call succeeds, then it does these steps and returns.
  record Boots (P : Type 0) (steps : List Step) (k : Run (Unit {0})) : Type 0 where
    booted :
        (t : List Step)
        → has_started t ≡ false
        → has_started (k t).1 ≡ true
        → P × ((k t).1 ≡ onto steps t)
    reached : Healthy → P → (t : List Step) → k t ≡ (some tt, onto steps t)

  has_started-cons :
      (s : Step) (t : List Step)
      → has_started (s ∷ []) ≡ false
      → has_started t ≡ false
      → has_started (s ∷ t) ≡ false
  has_started-cons started t other before = cc
  has_started-cons _ t other before = before

  abbrev Booted : Type 0 → List Step → Option (Unit {0}) × List Step → List Step → Type 0
  Booted P steps r t = has_started r.1 ≡ true → P × (r.1 ≡ onto steps t)

  pass_on :
      {A B : Type 0} (a : A) (f : A → Run B) (r : Option (Unit {0}) × List Step)
      → (let (b, t') = continue r.0 (λ _. pure a) r.1 in continue b f t')
        ≡ continue r.0 (λ _. f a) r.1
  pass_on a f (none, t) = refl
  pass_on a f (some u, t) = refl

  module _ {P : Type 0} {steps : List Step} where
    performed :
        (b : Bool) (s : Step) (k : Run (Unit {0})) (t : List Step)
        → has_started (s ∷ []) ≡ false
        → Boots P steps k
        → has_started t ≡ false
        → Booted P (s ∷ steps) (((λ t. if b then (some tt, s ∷ t) else (none, t)) >> k) t) t
    performed true s k t other next before after =
        next.booted (s ∷ t) (has_started-cons s t other before) after
    performed false s k t other next before after = cc (before, after)

    Boots-perform :
        (s : Step) (k : Run (Unit {0}))
        → has_started (s ∷ []) ≡ false
        → Boots P steps k
        → Boots P (s ∷ steps) (perform host s >> k)
    unfolding perform
    Boots-perform s k other next = record {
      booted = λ t. performed (host.succeeds t s) s k t other next;
      reached = λ healthy p t. rw (healthy t s) (next.reached healthy p (s ∷ t));
    }

    Boots-when :
        (b : Bool) (s : Step) (k : Run (Unit {0}))
        → has_started (s ∷ []) ≡ false
        → Boots P steps k
        → Boots P (step_if b s ++ steps) (when b (perform host s) >> k)
    Boots-when true s k other next = Boots-perform s k other next
    Boots-when false s k other next = next

    required :
        (b : Bool) (k : Run (Unit {0})) (t : List Step)
        → Boots P steps k
        → has_started t ≡ false
        → Booted ((b ≡ false) × P) steps ((when b exit >> k) t) t
    required true k t next before after = cc (before, after)
    required false k t next before after = let (p, e) = next.booted t before after in ((refl, p), e)

    Boots-require :
        (name : String) (k : Run (Unit {0}))
        → Boots P steps k
        → Boots (HasVariable name × P) steps (require host name >> k)
    unfolding require
    Boots-require name k next = record {
      booted = λ t. required (is_empty (host.getenv name)) k t next;
      reached = λ healthy (set, p) t. rw set (next.reached healthy p t);
    }

    Boots-add_watcher :
        (o : Option CertWatcher) (k : Run (Unit {0}))
        → Boots P steps k
        → Boots P (steps_of added_watcher o ++ steps) (add_watcher host o >> k)
    unfolding add_watcher
    Boots-add_watcher none k next = next
    Boots-add_watcher (some w) k next = Boots-perform (added_watcher w) k refl next

    watched_if :
        (b : Bool) (w : CertWatcher) (f : Option CertWatcher → Run (Unit {0}))
        → Boots P steps (f (if b then none else some w))
        → Boots P
            (steps_of watched (if b then none else some w) ++ steps)
            ((if b then pure none else perform host (watched w) >> pure (some w)) >>= f)
    watched_if true w f next = next
    watched_if false w f next = record {
      booted = λ t before.
          subst (λ r. Booted P (watched w ∷ steps) r t)
            (sym (pass_on (some w) f (perform host (watched w) t)))
            ((Boots-perform (watched w) (f (some w)) refl next).booted t before);
      reached = λ healthy p t.
          pass_on (some w) f (perform host (watched w) t)
          ∙ (Boots-perform (watched w) (f (some w)) refl next).reached healthy p t;
    }

    Boots-watch :
        (path name key : String) (f : Option CertWatcher → Run (Unit {0}))
        → Boots P steps (f (watcher_of path name key))
        → Boots P
            (steps_of watched (watcher_of path name key) ++ steps)
            (watch host path name key >>= f)
    unfolding watch
    Boots-watch path name key f next =
        watched_if (is_empty path)
          (record { cert_file = host.join path name; key_file = host.join path key }) f next

  start_trace :
      (b : Bool) (t : List Step)
      → (if◌then◌else◌ {A = Option (Unit {0}) × List Step} b (some tt, t) (none, t)).1 ≡ t
  start_trace true t = refl
  start_trace false t = refl

  Boots-start : Boots (Unit {0}) (started ∷ []) (start host)
  unfolding start
  Boots-start = record {
    booted = λ t before after. (tt, start_trace (host.succeeds t started) (started ∷ t));
    reached = λ healthy p t. rw (healthy t started);
  }

  main-Boots :
      (flags : Flags)
      → Boots
          (HasVariable "WX_ONE_HOST"
            × (HasVariable "WX_ONE_USERNAME" × (HasVariable "WX_ONE_PASSWORD" × Unit {0})))
          (boot flags)
          (main host flags)
  unfolding main
  main-Boots flags =
      let on = webhooks_enabled host in
      Boots-watch flags.webhook_cert_path flags.webhook_cert_name flags.webhook_cert_key _ (
        Boots-watch flags.metrics_cert_path flags.metrics_cert_name flags.metrics_cert_key _ (
          Boots-perform got_config _ refl (
            Boots-perform (made_manager _) _ refl (
              Boots-require "WX_ONE_HOST" _ (
                Boots-require "WX_ONE_USERNAME" _ (
                  Boots-require "WX_ONE_PASSWORD" _ (
                    Boots-perform handled_signals _ refl (
                      Boots-perform (set_up_controller "WXOneCluster") _ refl (
                        Boots-perform (set_up_controller "WXOneMachine") _ refl (
                          Boots-when on (set_up_webhook "WXOneMachine") _ refl (
                            Boots-when on (set_up_webhook "WXOneMachineTemplate") _ refl (
                              Boots-when on (set_up_webhook "WXOneCluster") _ refl (
                                Boots-when on (set_up_webhook "WXOneClusterTemplate") _ refl (
                                  Boots-add_watcher (metrics_watcher flags) _ (
                                    Boots-add_watcher (webhook_watcher flags) _ (
                                      Boots-perform added_healthz _ refl (
                                        Boots-perform added_readyz _ refl
                                          Boots-start)))))))))))))))))

-- If main comes to mgr.Start, then the three variables of the login are set, and every call up to
-- there was made once, in this order, without an error: the certificate watchers where a directory
-- is given, the manager with the options of the flags, both controllers, the four webhooks unless
-- ENABLE_WEBHOOKS is "false", the watchers' registration and both health checks.
pub main-boot :
    (host : Host) (flags : Flags) (starts : has_started (main host flags []).1 ≡ true)
    → HasVariable host "WX_ONE_HOST"
      × HasVariable host "WX_ONE_USERNAME"
      × HasVariable host "WX_ONE_PASSWORD"
      × ((main host flags []).1 ≡ onto (boot host flags) [])
main-boot host flags starts =
    let ((a, (b, (c, _))), e) = (main-Boots host flags).booted [] refl starts in (a, b, c, e)

-- The converse: where every call succeeds and the three variables are set, main comes to mgr.Start
-- and returns, and has made these calls.
pub main-starts :
    (host : Host) (flags : Flags) (healthy : Healthy host)
    (set_host : HasVariable host "WX_ONE_HOST") (set_user : HasVariable host "WX_ONE_USERNAME")
    (set_password : HasVariable host "WX_ONE_PASSWORD")
    → main host flags [] ≡ (some tt, onto (boot host flags) [])
main-starts host flags healthy set_host set_user set_password =
    (main-Boots host flags).reached healthy (set_host, (set_user, (set_password, tt))) []
