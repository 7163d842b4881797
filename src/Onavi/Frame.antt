-- ===== src/Onavi/Frame.antt =====
-- `read_xyz`: which exchanges it accepts, and what it makes of the bytes.
use csnd.Prelude.{
  ℕ, ◌+◌, ◌≡◌, ◌≢◌, refl, sym, ap, ◌∙◌, ◌⊎◌, inl, inr, true, false, none, some, List, [], ◌∷◌,
  length, arith, ◌==◌, Bool-cases, Option-cases,
}
use csnd.Float.{Float}
use csnd.Onavi.{
  SensorOnavi, Exchange, Triple, is_frame, find_precision, raw, to_g, read_xyz, frame_length,
}

-- The nine bytes `##XXYYZZC` of the protocol, with their parts named.
pub record Frame : Type 0 where
  pub start : ℕ
  pub x_hi : ℕ
  pub x_lo : ℕ
  pub y_hi : ℕ
  pub y_lo : ℕ
  pub z_hi : ℕ
  pub z_lo : ℕ
  pub checksum : ℕ

abbrev pub bytes_of : Frame → List ℕ
bytes_of f =
    f.start ∷ f.start ∷ f.x_hi ∷ f.x_lo ∷ f.y_hi ∷ f.y_lo ∷ f.z_hi ∷ f.z_lo ∷ f.checksum ∷ []

-- `*`, `#` or `$`.
abbrev pub IsStart : ℕ → Type 0
IsStart c = (c ≡ 0x2A) ⊎ (c ≡ 0x23) ⊎ (c ≡ 0x24)

-- An open port, the request written, and a frame of the protocol read.
abbrev pub Receives : {F : Type 0} → SensorOnavi F → Exchange → Frame → Type 0
Receives s io f =
    (s.device_fd ≢ none) × (io.wrote ≡ true) × (io.received ≡ some (bytes_of f)) × IsStart f.start

IsStart-bytes :
    (a b c d e g h i j : ℕ)
    → is_frame (a ∷ b ∷ c ∷ d ∷ e ∷ g ∷ h ∷ i ∷ j ∷ []) ≡ true
    → (b ≡ a) × IsStart a
unfolding is_frame
IsStart-bytes a b c d e g h i j v = ground arith

nine_bytes :
    (bytes : List ℕ)
    → (length bytes == frame_length) ≡ true
    → is_frame bytes ≡ true
    → (f : Frame) × (bytes ≡ bytes_of f) × IsStart f.start
nine_bytes (a ∷ b ∷ c ∷ d ∷ e ∷ g ∷ h ∷ i ∷ j ∷ []) n v =
    let (same, start) = IsStart-bytes a b c d e g h i j v in
    (
      record {
        start = a;
        x_hi = c;
        x_lo = d;
        y_hi = e;
        y_lo = g;
        z_hi = h;
        z_lo = i;
        checksum = j;
      },
      ap (λ k. a ∷ k ∷ c ∷ d ∷ e ∷ g ∷ h ∷ i ∷ j ∷ []) same,
      start,
    )
nine_bytes bytes n v = absurd (ground arith)

module _ {F : Type 0} ⦃float : Float F⦄ where
  abbrev pub decoded : Frame → Triple F
  decoded f = (to_g (raw f.x_hi f.x_lo), to_g (raw f.y_hi f.y_lo), to_g (raw f.z_hi f.z_lo))

  -- A frame of the protocol from an open port: the values are those of its bytes and are kept as
  -- the last good ones, the bit type is found if it was not known, and nothing else changes.
  pub read_xyz-frame :
      (s : SensorOnavi F) (io : Exchange) (f : Frame) (xyz : Triple F)
      → Receives s io f
      → read_xyz s io xyz ≡ (
        true,
        decoded f,
        record s {
          precision = find_precision s.precision f.start;
          x_last = (decoded f).0;
          y_last = (decoded f).1;
          z_last = (decoded f).2;
        },
      )
  unfolding read_xyz
  read_xyz-frame s io f xyz (open_port, wrote, got, start) = ground arith

  -- When `read_xyz` returns false, the sensor has not changed. With the port closed the reference
  -- parameters keep their values, and otherwise they are given the last good ones.
  pub read_xyz-false :
      (s : SensorOnavi F) (io : Exchange) (xyz : Triple F)
      → (read_xyz s io xyz).0 ≡ false
      → read_xyz s io xyz
        ≡ (false, elim s.device_fd [ none ↦ xyz | some fd ↦ (s.x_last, s.y_last, s.z_last) ], s)
  unfolding read_xyz
  read_xyz-false s io xyz h = ground arith

  -- When `read_xyz` returns true, the port was open, the request was written, and a frame of the
  -- protocol was read.
  pub read_xyz-true :
      (s : SensorOnavi F) (io : Exchange) (xyz : Triple F)
      → (read_xyz s io xyz).0 ≡ true
      → (f : Frame) × Receives s io f
  unfolding read_xyz
  read_xyz-true s io xyz h = elim (Option-cases io.received) [
    | inl silent ↦ absurd (ground arith)
    | inr (bytes, got) ↦
        let (f, same, start) = nine_bytes bytes (ground arith) (ground arith) in
        (f, (ground arith, ground arith, got ∙ ap some same, start))
  ]

  -- `read_xyz` comes to one of two ends. If the port is open, the request was written, and a frame
  -- of the protocol was read, it returns true with the values of its bytes, keeps them as the last
  -- good ones, finds the bit type if it was not known, and changes nothing else. If not, it returns
  -- false and the sensor does not change: with the port closed the reference parameters keep their
  -- values, and otherwise they are given the last good ones.
  pub read_xyz_cases :
      (s : SensorOnavi F) (io : Exchange) (xyz : Triple F)
      → ((f : Frame) × Receives s io f
          × (read_xyz s io xyz ≡ (
            true,
            decoded f,
            record s {
              precision = find_precision s.precision f.start;
              x_last = (decoded f).0;
              y_last = (decoded f).1;
              z_last = (decoded f).2;
            },
          )))
        ⊎ (¬ ((f : Frame) × Receives s io f)
            × (read_xyz s io xyz ≡ (
              false,
              elim s.device_fd [ none ↦ xyz | some fd ↦ (s.x_last, s.y_last, s.z_last) ],
              s,
            )))
  read_xyz_cases s io xyz = elim (Bool-cases (read_xyz s io xyz).0) [
    | inl accepted ↦
        let (f, receives) = read_xyz-true s io xyz accepted in
        inl (f, receives, read_xyz-frame s io f xyz receives)
    | inr refused ↦ inr (
      λ (f, receives).
          let accepted = ap (λ r. r.0) (read_xyz-frame s io f xyz receives) in absurd (cc),
      read_xyz-false s io xyz refused,
    )
  ]

  -- The checksum of an accepted frame is not looked at: a frame with any other one gives the same
  -- result, values and state.
  pub read_xyz-checksum :
      (s : SensorOnavi F) (io : Exchange) (f : Frame) (xyz : Triple F) (c : ℕ)
      → Receives s io f
      → read_xyz s (record io { received = some (bytes_of (record f { checksum = c })) }) xyz
        ≡ read_xyz s io xyz
  read_xyz-checksum s io f xyz c (open_port, wrote, got, start) =
      read_xyz-frame s (record io { received = some (bytes_of (record f { checksum = c })) })
        (record f { checksum = c }) xyz (open_port, wrote, refl, start)
      ∙ sym (read_xyz-frame s io f xyz (open_port, wrote, got, start))

  -- The high byte counts 255 and not 256: a frame whose X value ends in the byte 255 gives the same
  -- result as the frame with the next value of sixteen bits, whose low byte is 0.
  pub read_xyz-collision :
      (s : SensorOnavi F) (io : Exchange) (f : Frame) (xyz : Triple F)
      → Receives s io f
      → f.x_lo ≡ 255
      → read_xyz s
          (record io { received = some (bytes_of (record f { x_hi = f.x_hi + 1; x_lo = 0 })) })
          xyz
        ≡ read_xyz s io xyz
  read_xyz-collision s io f xyz (open_port, wrote, got, start) low =
      let g = record f { x_hi = f.x_hi + 1; x_lo = 0 } in
      let same : raw (f.x_hi + 1) 0 ≡ raw f.x_hi f.x_lo = omega arith in
      read_xyz-frame s (record io { received = some (bytes_of g) }) g xyz
        (open_port, wrote, refl, start)
      ∙ ap
          (λ n. (
            true,
            (to_g n, (decoded f).1, (decoded f).2),
            record s {
              precision = find_precision s.precision f.start;
              x_last = to_g n;
              y_last = (decoded f).1;
              z_last = (decoded f).2;
            },
          ))
          same
      ∙ sym (read_xyz-frame s io f xyz (open_port, wrote, got, start))
