-- ===== src/Onavi.antt =====
-- sensor/onavi/onavi.hpp and onavi.cpp: the class `sensor_onavi`. What the device, the terminal and
-- the clock answer are arguments. Bytes are numbers below 256, times nanoseconds.
pub mod Frame
pub mod Port
pub mod Sampling
pub mod Class
mod Tests
use csnd.Prelude.{
  ℕ, zero, suc, ◌+◌, ◌-◌, ◌*◌, Bool, true, false, ◌&&◌, ◌||◌, Option, none, some, List, [], ◌∷◌,
  ◌++◌, length, get_or, Text, ltb, ◌==◌, if◌then◌else◌, Result, ok, err,
}
use csnd.Float.{Float}
use csnd.Accel.{AccelRecord}

-- `g_ciLen`
abbrev pub frame_length : ℕ
frame_length = 9

-- SAMPLING_INTERVAL and SAMPLING_DURATION, in nanoseconds.
abbrev pub sampling_interval : ℕ
sampling_interval = 2000000

abbrev pub sampling_duration : ℕ
sampling_duration = 20000000

-- `device_fd` is `none` where the member is -1.
pub record SensorOnavi (F : Type 0) : Type 0 where
  pub device_file : Text
  pub device_fd : Option ℕ
  pub precision : ℕ
  pub x_last : F
  pub y_last : F
  pub z_last : F

-- One exchange with the device: whether `write` wrote the one byte, and what `read` read, `none`
-- where it returned -1.
pub record Exchange : Type 0 where
  pub wrote : Bool
  pub received : Option (List ℕ)

pub data Error : Type 0 where
  could_not_access could_not_set_attrs error_in_read_xyz read_sensor_error : Error
  unknown_sensor_type : ℕ → Error

abbrev pub Triple : Type 0 → Type 0
Triple F = F × F × F

-- The start bytes `**`, `##` or `$$`, and the null behind the frame.
unfoldable pub is_frame : List ℕ → Bool
is_frame bytes =
    get_or bytes frame_length 0 == 0
    && (get_or bytes 0 0 == 0x2A && get_or bytes 1 0 == 0x2A
        || get_or bytes 0 0 == 0x23 && get_or bytes 1 0 == 0x23
        || get_or bytes 0 0 == 0x24 && get_or bytes 1 0 == 0x24)

-- The bit type, set by the first frame only.
pub find_precision : ℕ → ℕ → ℕ
find_precision precision start =
    if precision == 0
    then (if start == 0x2A
        then 12
        else if start == 0x23
        then 16
        else if start == 0x24
        then 24
        else precision)
    else precision

-- `(hi * 255) + lo`
abbrev pub raw : ℕ → ℕ → ℕ
raw hi lo = hi * 255 + lo

module _ {F : Type 0} ⦃float : Float F⦄ where
  -- `((float) raw - 32768.0f) * FLOAT_LINUX_ONAVI_FACTOR * EARTH_G`
  pub to_g : ℕ → F
  to_g n =
      float.mul
        (float.mul (float.sub (float.of_nat n) (float.of_nat 32768))
          (float.literal 7629394531250 17))
        (float.literal 978033 5)

  -- A frame has been read: the values, which become the last good ones.
  unfoldable pub accept : SensorOnavi F → List ℕ → Bool × Triple F × SensorOnavi F
  accept s bytes =
      let x = to_g (raw (get_or bytes 2 0) (get_or bytes 3 0)) in
      let y = to_g (raw (get_or bytes 4 0) (get_or bytes 5 0)) in
      let z = to_g (raw (get_or bytes 6 0) (get_or bytes 7 0)) in
      (
        true,
        (x, y, z),
        record s {
          precision = find_precision s.precision (get_or bytes 0 0);
          x_last = x;
          y_last = y;
          z_last = z;
        },
      )

  -- The result, what the reference parameters hold afterwards, and the sensor.
  unfoldable pub read_xyz : SensorOnavi F → Exchange → Triple F → Bool × Triple F × SensorOnavi F
  unfolding is_frame accept
  read_xyz s io xyz =
      let last : Triple F = (s.x_last, s.y_last, s.z_last) in
      elim s.device_fd [
        | none ↦ (false, xyz, s)
        | some fd ↦
            if io.wrote
            then elim io.received [
              | none ↦ (false, last, s)
              | some bytes ↦
                  if length bytes == frame_length && is_frame bytes
                  then accept s bytes
                  else (false, last, s)
            ]
            else (false, last, s)
      ]

  -- The descriptors that `close` is called on, and the sensor.
  pub close_port : SensorOnavi F → List ℕ × SensorOnavi F
  close_port s = (
    elim s.device_fd [ none ↦ [] | some fd ↦ fd ∷ [] ],
    record s { device_fd = none; precision = 0 },
  )

  -- The end of the constructor: the tests on the first reading, and the descriptors closed.
  pub check_type : Bool → SensorOnavi F → Result Error (SensorOnavi F) × List ℕ
  unfolding close_port
  check_type done s =
      let (closed, s') = close_port s in
      if done && ltb 0 s.precision
      then (if s.precision == 12 || s.precision == 16 || s.precision == 24
          then (ok s, [])
          else (err (unknown_sensor_type s'.precision), closed))
      else (err error_in_read_xyz, closed)

  -- The sensor when the members are initialised and `open` has returned.
  abbrev pub made : Text → Option ℕ → SensorOnavi F
  made device_file opened = record {
    device_file = device_file;
    device_fd = opened;
    precision = 0;
    x_last = float.of_nat 0;
    y_last = float.of_nat 0;
    z_last = float.of_nat 0;
  }

  -- The constructor: `opened` is what `open` returned, `set_attrs` whether `tcsetattr` succeeded,
  -- `io` the first exchange and `xyz` what the local variables held.
  pub init : Text → Option ℕ → Bool → Exchange → Triple F → Result Error (SensorOnavi F) × List ℕ
  init device_file none set_attrs io xyz = (err could_not_access, [])
  init device_file (some fd) set_attrs io xyz =
      let s = made device_file (some fd) in
      let (done, _, s') = read_xyz s io xyz in
      if set_attrs then check_type done s' else (err could_not_set_attrs, (close_port s).0)

  -- `x_acc += x; y_acc += y; z_acc += z;`
  abbrev pub plus : Triple F → Triple F → Triple F
  plus acc xyz = (float.add acc.0 xyz.0, float.add acc.1 xyz.1, float.add acc.2 xyz.2)

  -- `while (end_time < limit)`: each round makes an exchange, sleeps and reads the clock. `none`
  -- means that the rounds given do not suffice.
  unfoldable pub sample_loop :
      SensorOnavi F
      → ℕ
      → ℕ
      → Triple F
      → ℕ
      → List (Exchange × ℕ)
      → Option (Result Error (Triple F × ℕ × ℕ) × SensorOnavi F)
  sample_loop s limit end_time acc n [] =
      if ltb end_time limit then none else some (ok (acc, n, end_time), s)
  sample_loop s limit end_time acc n ((io, now) ∷ rounds) =
      let zero_f = float.of_nat 0 in
      let (done, xyz, s') = read_xyz s io (zero_f, zero_f, zero_f) in
      let more = sample_loop s' limit now (plus acc xyz) (n + 1) rounds in
      if ltb end_time limit
      then (if done then more else some (err read_sensor_error, s'))
      else some (ok (acc, n, end_time), s)

  -- The means over the samples taken from `start_time` on.
  unfoldable pub mean_record : ℕ → Triple F → ℕ → ℕ → AccelRecord F
  mean_record start_time acc n end_time = record {
    x = float.div acc.0 (float.of_nat n);
    y = float.div acc.1 (float.of_nat n);
    z = float.div acc.2 (float.of_nat n);
    sample_count = n;
    start_time = start_time;
    end_time = end_time;
  }

  -- What is returned when the loop has ended: the exception, or the record of the means.
  unfoldable pub finish :
      ℕ
      → Option (Result Error (Triple F × ℕ × ℕ) × SensorOnavi F)
      → Option (Result Error (AccelRecord F) × SensorOnavi F)
  finish start_time none = none
  finish start_time (some (err e, s)) = some (err e, s)
  finish start_time (some (ok (acc, n, end_time), s)) =
      some (ok (mean_record start_time acc n end_time), s)

  unfoldable pub sample :
      SensorOnavi F
      → ℕ
      → List (Exchange × ℕ)
      → Option (Result Error (AccelRecord F) × SensorOnavi F)
  unfolding finish
  sample s start_time rounds =
      let zero_f = float.of_nat 0 in
      let limit = start_time + sampling_duration - (sampling_interval + 1000000) in
      finish start_time (sample_loop s limit start_time (zero_f, zero_f, zero_f) 0 rounds)
