-- ===== src/Main/Exits.antt =====
-- What has to go well for `main` to reach the run.
use csnd.Prelude.{
  ℕ, ◌≡◌, refl, ◌⊎◌, inl, inr, Bool, true, false, some, Text, Result, ok, err, ◌>>◌, if◌then◌else◌,
  arith,
}
use mathlib.Core.Logic.{◌↔◌}
use csnd.Prelude.Int.{ℤ, pos, negsuc}
use csnd.Config.{Config}
use csnd.Main.{
  Args, exit_success, start, Attempts, Message, logged, printed, prepared, equipped, catch,
  made_recorder,
}
use csnd.Recorder.{init}

-- Every call of `try_to` that the configuration needs before the detector succeeds.
abbrev pub Prepares : Attempts → Config → Type 0
Prepares try_to cfg =
    (try_to.make_logger cfg.logging_logger ≡ ok tt)
    × (try_to.make_serializer ≡ ok tt)
    × ((cfg.offline_mode ≡ true) ⊎ (try_to.make_sender cfg.iothub_conn_string ≡ ok tt))
    × (try_to.make_sensor cfg.sensor_device_file ≡ ok tt)

-- The bucket size is not negative, and both handlers can be set.
abbrev pub Equips : Attempts → Config → Type 0
Equips try_to cfg =
    ((n : ℕ) × (cfg.iothub_bucket_size ≡ pos n))
    × (try_to.handle_sigterm ≡ ok tt)
    × (try_to.handle_sigint ≡ ok tt)

>>-ok : {E : Type 0} (m k : Result E (Unit {0})) → ((m >> k) ≡ ok tt) ↔ ((m ≡ ok tt) × (k ≡ ok tt))
>>-ok (ok u) k = (λ e. (refl, e), λ e. e.1)
>>-ok (err what) k = (λ e. absurd (cc), λ e. absurd (cc))

catch-ok :
    (where_to : Text → Message) (r : Result Text (Unit {0}))
    → (catch where_to r ≡ ok tt) ↔ (r ≡ ok tt)
catch-ok where_to (ok u) = (λ e. refl, λ e. refl)
catch-ok where_to (err what) = (λ e. absurd (cc), λ e. absurd (cc))

made_recorder-ok : (z : ℤ) → (made_recorder (init (Unit {0}) z) ≡ ok tt) ↔ ((n : ℕ) × (z ≡ pos n))
unfolding init
made_recorder-ok (pos n) = (λ e. (n, refl), λ e. refl)
made_recorder-ok (negsuc n) = (λ e. absurd (cc), λ e. absurd (cc))

sender-ok :
    (offline_mode : Bool) (r : Result Text (Unit {0}))
    → ((if offline_mode then ok tt else catch logged r) ≡ ok tt)
      ↔ ((offline_mode ≡ true) ⊎ (r ≡ ok tt))
sender-ok true r = (λ e. inl refl, λ e. refl)
sender-ok false r = (
  λ e. inr ((catch-ok logged r).0 e),
  λ e. elim e [ inl h ↦ absurd (cc) | inr h ↦ (catch-ok logged r).1 h ],
)

pub prepared_iff :
    (try_to : Attempts) (cfg : Config) → (prepared try_to cfg ≡ ok tt) ↔ Prepares try_to cfg
unfolding prepared
prepared_iff try_to cfg = (
  λ e.
      let (logger, e) = (>>-ok _ _).0 e in
      let (serializer, e) = (>>-ok _ _).0 e in
      let (sender, sensor) = (>>-ok _ _).0 e in
      (
        (catch-ok printed _).0 logger,
        (catch-ok logged _).0 serializer,
        (sender-ok cfg.offline_mode _).0 sender,
        (catch-ok logged _).0 sensor,
      ),
  λ (logger, serializer, sender, sensor). (>>-ok _ _).1 (
    (catch-ok printed _).1 logger,
    (>>-ok _ _).1 (
      (catch-ok logged _).1 serializer,
      (>>-ok _ _).1 ((sender-ok cfg.offline_mode _).1 sender, (catch-ok logged _).1 sensor),
    ),
  ),
)

pub equipped_iff :
    (try_to : Attempts) (cfg : Config) → (equipped try_to cfg ≡ ok tt) ↔ Equips try_to cfg
unfolding equipped
equipped_iff try_to cfg = (
  λ e.
      let (bucket, e) = (>>-ok _ _).0 e in
      let (term, int) = (>>-ok _ _).0 e in
      (
        (made_recorder-ok cfg.iothub_bucket_size).0 ((catch-ok logged _).0 bucket),
        (catch-ok logged _).0 term,
        (catch-ok logged _).0 int,
      ),
  λ (bucket, term, int). (>>-ok _ _).1 (
    (catch-ok logged _).1 ((made_recorder-ok cfg.iothub_bucket_size).1 bucket),
    (>>-ok _ _).1 ((catch-ok logged _).1 term, (catch-ok logged _).1 int),
  ),
)

pub start-ok :
    (args : Args) (daemon_fails : Bool) (config_file : Text)
    → start (ok args) daemon_fails ≡ ok config_file
    → (args.help ≡ false)
      × (args.config ≡ some config_file)
      × ((args.daemon ≡ false) ⊎ (daemon_fails ≡ false))
unfolding start
start-ok args daemon_fails config_file h = ground arith

pub ok-start :
    (args : Args) (daemon_fails : Bool) (config_file : Text)
    → args.help ≡ false
    → args.config ≡ some config_file
    → (args.daemon ≡ false) ⊎ (daemon_fails ≡ false)
    → start (ok args) daemon_fails ≡ ok config_file
unfolding start
ok-start args daemon_fails config_file help config daemon = ground arith

pub start-help :
    (args : Args) (daemon_fails : Bool)
    → start (ok args) daemon_fails ≡ err exit_success
    → args.help ≡ true
unfolding start
start-help args daemon_fails h = ground arith

pub help-start :
    (args : Args) (daemon_fails : Bool)
    → args.help ≡ true
    → start (ok args) daemon_fails ≡ err exit_success
unfolding start
help-start args daemon_fails h = ground arith
