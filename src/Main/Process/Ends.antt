-- ===== src/Main/Process/Ends.antt =====
-- How the process ends, in terms of what goes well.
use csnd.Prelude.{◌≡◌, ◌⊎◌, Bool, false, some, Text, Result, ok}
use csnd.Float.{Float}
use csnd.Config.{Config}
use csnd.Main.{Args, Attempts, prepared, equipped}
use csnd.Main.Exits.{Prepares, Equips}
use csnd.Main.Process.{Ending, Run, end_of, begun}
use csnd.Main.Process.Waits.{IsUndefined}

-- The configuration file is given and read, and the program is a daemon where it has to be.
abbrev pub IsRead : Args → Bool → (Text → Result Text Config) → Config → Type 0
IsRead args daemon_fails load cfg =
    (config_file : Text) × (args.help ≡ false)
    × (args.config ≡ some config_file)
    × ((args.daemon ≡ false) ⊎ (daemon_fails ≡ false))
    × (load config_file ≡ ok cfg)

module _ {F S D : Type 0} ⦃float : Float F⦄ (load : Text → Result Text Config) (try_to : Attempts)
    (run : Run F S D) where
  abbrev block_end : Config → Ending
  block_end cfg = begun (prepared try_to cfg) (equipped try_to cfg) (end_of run)

  -- The configuration is read, and all is there for the run.
  abbrev pub IsServed : Args → Bool → Config → Type 0
  IsServed args daemon_fails cfg =
      IsRead args daemon_fails load cfg × Prepares try_to cfg × Equips try_to cfg

  -- What fails behind the construction of the detector, or the run.
  abbrev pub FailsLate : Config → Type 0
  FailsLate cfg = (¬ Equips try_to cfg) ⊎ (Equips try_to cfg × IsUndefined run)
