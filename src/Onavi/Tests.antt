-- ===== src/Onavi/Tests.antt =====
-- Exchanges with a sensor, on whole numbers, and the theorems applied to them.
use csnd.Prelude.{ℕ, ◌≡◌, refl, ◌⊎◌, inl, inr, true, false, none, some, List, [], ◌∷◌, arith, codes}
use csnd.Prelude.Int.{ℤ, pos}
use csnd.Float.Whole.{whole}
use csnd.Onavi.{SensorOnavi, Exchange, Triple, find_precision, to_g, read_xyz, made, init, sample}
use csnd.Onavi.Frame.{
  Frame, bytes_of, Receives, decoded, read_xyz_cases, read_xyz-checksum, read_xyz-collision,
}
use csnd.Onavi.Port.{Built, init-Built}
use csnd.Onavi.Sampling.{Sampled, sample-Sampled}

abbrev frame : Frame
frame = record {
  start = 0x23;
  x_hi = 128;
  x_lo = 255;
  y_hi = 129;
  y_lo = 0;
  z_hi = 140;
  z_lo = 7;
  checksum = 1;
}

abbrev exchange : Exchange
exchange = record { wrote = true; received = some (bytes_of frame) }

abbrev silent : Exchange
silent = record { wrote = true; received = none }

abbrev sensor : SensorOnavi ℤ
sensor = made (codes "/dev/ttyACM0") (some 5)

abbrev zeros : Triple ℤ
zeros = (pos 0, pos 0, pos 0)

received : Receives sensor exchange frame
received = ((λ e. cc), refl, refl, inr (inl refl))

read_xyz_cases_example :
    ((f : Frame) × Receives sensor exchange f
      × (read_xyz sensor exchange zeros ≡ (
        true,
        decoded f,
        record sensor {
          precision = find_precision 0 f.start;
          x_last = (decoded f).0;
          y_last = (decoded f).1;
          z_last = (decoded f).2;
        },
      )))
    ⊎ (¬ ((f : Frame) × Receives sensor exchange f)
        × (read_xyz sensor exchange zeros ≡ (false, zeros, sensor)))
read_xyz_cases_example = read_xyz_cases sensor exchange zeros

refused : read_xyz sensor silent (pos 4, pos 5, pos 6) ≡ (false, zeros, sensor)
unfolding read_xyz
refused = refl

read_xyz-checksum_example :
    read_xyz sensor
      (record { wrote = true; received = some (bytes_of (record frame { checksum = 9 })) })
      zeros
    ≡ read_xyz sensor exchange zeros
read_xyz-checksum_example = read_xyz-checksum sensor exchange frame zeros 9 received

read_xyz-collision_example :
    read_xyz sensor
      (record { wrote = true; received = some (bytes_of (record frame { x_hi = 129; x_lo = 0 })) })
      zeros
    ≡ read_xyz sensor exchange zeros
read_xyz-collision_example = read_xyz-collision sensor exchange frame zeros received refl

init-Built_example :
    Built (some 5) exchange (init (codes "/dev/ttyACM0") (some 5) true exchange zeros)
init-Built_example = init-Built (codes "/dev/ttyACM0") (some 5) true exchange zeros

-- Nine rounds, 2 ms after each other.
abbrev rounds : List (Exchange × ℕ)
rounds =
    (exchange, 12000000)
    ∷ (exchange, 14000000)
    ∷ (exchange, 16000000)
    ∷ (exchange, 18000000)
    ∷ (exchange, 20000000)
    ∷ (exchange, 22000000)
    ∷ (exchange, 24000000)
    ∷ (exchange, 26000000)
    ∷ (exchange, 28000000)
    ∷ []

sample-Sampled_example : Sampled sensor 10000000 rounds (sample sensor 10000000 rounds)
sample-Sampled_example = sample-Sampled sensor 10000000 rounds (omega arith) (
  omega arith,
  (
    omega arith,
    (
      omega arith,
      (omega arith, (omega arith, (omega arith, (omega arith, (omega arith, (omega arith, tt)))))),
    ),
  ),
)

-- The middle of the range is 0 g.
middle : to_g ⦃float = whole⦄ 32768 ≡ pos 0
unfolding to_g csnd.Prelude.Int.◌-ℤ◌
middle = refl
