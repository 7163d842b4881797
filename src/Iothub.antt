-- ===== src/Iothub.antt =====
-- sender/sender.hpp and sender/iothub/iothub.cpp: the class `sender_iothub`. The client library of
-- the hub is a parameter; it hands its messages to the function that the constructor sets.
mod Tests
use csnd.Prelude.{
  ℕ, ◌≡◌, Bool, not, Option, none, some, List, [], ◌∷◌, Text, Result, ok, if◌then◌else◌,
}
use csnd.Util.Log
use csnd.Util.Log.{Spdlog, log}

abbrev pub Properties : Type 0
Properties = List (Text × Text)

-- `hub.send`, on the state that the fallback changes. The library may throw; if it returns, the
-- answer is whether it has called the fallback.
pub record Hub (S : Type 0) : Type 0 where
  pub hub_send : S → Properties → List ℕ → (S → S) → Result Text Bool × S

-- Both overloads of `send`: a string and a vector of bytes are the same here.
abbrev pub send : {S : Type 0} → Hub S → S → Properties → List ℕ → (S → S) → Result Text Bool × S
send hub s prop payload fallback = hub.hub_send s prop payload fallback

-- What a call comes to, from whether the payload was delivered, and the state after the attempt.
abbrev pub settled : {S : Type 0} → Bool × S → (S → S) → Result Text Bool × S
settled (delivered, s) fallback = (ok (not delivered), if delivered then s else fallback s)

-- The library either delivers a payload or calls the fallback, before it returns, and does not
-- throw. What `main` does with undelivered data relies on it.
pub record IsPrompt {S : Type 0} (hub : Hub S) : Type 0 where
  pub deliver : S → Properties → List ℕ → Bool × S
  pub send-settled :
      (s : S) (prop : Properties) (payload : List ℕ) (fallback : S → S)
      → hub.hub_send s prop payload fallback ≡ settled (deliver s prop payload) fallback

-- `aziot::loglevel`, as far as the code names its values.
pub data Loglevel : Type 0 where
  trace info debug error : Loglevel

module _ {L : Type 0} (spdlog : Spdlog L) where
  -- The function that the constructor sets, on the registered logger.
  pub log_message : Loglevel → Text → Option L → Option L
  log_message trace msg = log spdlog Log.trace msg
  log_message info msg = log spdlog Log.info msg
  log_message debug msg = log spdlog Log.debug msg
  log_message error msg = log spdlog Log.error msg
