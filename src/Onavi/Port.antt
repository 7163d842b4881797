-- ===== src/Onavi/Port.antt =====
-- The constructor and the life of the port: every descriptor that is opened is kept or closed.
use csnd.Prelude.{
  ℕ, ◌≡◌, ◌≢◌, refl, ◌⊎◌, inl, inr, Bool, true, false, Option, none, some, List, [], ◌∷◌, arith,
  Text, ok, err, Result, sym, ap, ◌∙◌, subst,
}
use csnd.Float.{Float}
use csnd.Onavi.{
  SensorOnavi, Exchange, Triple, Error, could_not_access, could_not_set_attrs, error_in_read_xyz,
  find_precision, read_xyz, close_port, check_type, made, init,
}
use csnd.Onavi.Frame.{Frame, bytes_of, IsStart, read_xyz-true, read_xyz-false, read_xyz-frame}

abbrev pub IsType : ℕ → Type 0
IsType p = (p ≡ 12) ⊎ (p ≡ 16) ⊎ (p ≡ 24)

find_precision-IsType : (start : ℕ) → IsStart start → IsType (find_precision 0 start)
unfolding find_precision
find_precision-IsType start h = ground arith

-- The bit type is set once.
pub find_precision-fixed : (p start : ℕ) → IsType p → find_precision p start ≡ p
unfolding find_precision
find_precision-fixed p start h = ground arith

abbrev pub descriptors : Option ℕ → List ℕ
descriptors none = []
descriptors (some fd) = fd ∷ []

module _ {F : Type 0} ⦃float : Float F⦄ where
  check_type-true : (s : SensorOnavi F) → IsType s.precision → check_type true s ≡ (ok s, [])
  unfolding check_type
  check_type-true s h = ground arith

  check_type-false :
      (s : SensorOnavi F) → check_type false s ≡ (err error_in_read_xyz, descriptors s.device_fd)
  unfolding check_type
  check_type-false s = ground arith

  -- What the constructor may come to, given what `open` returned: a sensor with the port open and a
  -- known bit type, or an exception with the port closed again.
  abbrev pub Built : Option ℕ → Exchange → Result Error (SensorOnavi F) × List ℕ → Type 0
  Built opened io (ok s, closed) =
      (closed ≡ [])
      × (s.device_fd ≡ opened)
      × (opened ≢ none)
      × IsType s.precision
      × ((f : Frame) × (io.received ≡ some (bytes_of f)) × IsStart f.start)
  Built opened io (err e, closed) =
      (closed ≡ descriptors opened)
      × ((e ≡ could_not_access) ⊎ (e ≡ could_not_set_attrs) ⊎ (e ≡ error_in_read_xyz))

  read-Built :
      (file : Text) (fd : ℕ) (io : Exchange) (xyz : Triple F) (r : Bool × Triple F × SensorOnavi F)
      → read_xyz (made file (some fd)) io xyz ≡ r
      → Built (some fd) io (check_type r.0 r.2)
  read-Built file fd io xyz (true, v, s) e =
      let m = made file (some fd) in
      let (f, got) = read_xyz-true m io xyz (ap (λ (r : Bool × Triple F × SensorOnavi F). r.0) e) in
      let is =
        ap (λ (r : Bool × Triple F × SensorOnavi F). r.2) (sym e ∙ read_xyz-frame m io f xyz got) in
      let typed : IsType s.precision =
        subst IsType (sym (ap (λ (t : SensorOnavi F). t.precision) is))
          (find_precision-IsType f.start got.3) in
      rw (check_type-true s typed)
        (refl, ap (λ (t : SensorOnavi F). t.device_fd) is, got.0, typed, (f, got.2, got.3))
  read-Built file fd io xyz (false, v, s) e =
      let m = made file (some fd) in
      let is =
        ap (λ (r : Bool × Triple F × SensorOnavi F). r.2)
          (sym e ∙ read_xyz-false m io xyz (ap (λ (r : Bool × Triple F × SensorOnavi F). r.0) e)) in
      rw (check_type-false s)
        (ap descriptors (ap (λ (t : SensorOnavi F). t.device_fd) is), inr (inr refl))

  -- The constructor succeeds only if it opened the device and read a frame of the protocol from it;
  -- then it holds the descriptor, has closed none, and its bit type is 12, 16 or 24. If it throws
  -- it has closed exactly the descriptor that it had opened, if any, and it does not throw for an
  -- unknown bit type.
  pub init-Built :
      (file : Text) (opened : Option ℕ) (attrs : Bool) (io : Exchange) (xyz : Triple F)
      → Built opened io (init file opened attrs io xyz)
  unfolding init close_port
  init-Built file none attrs io xyz = (refl, inl refl)
  init-Built file (some fd) false io xyz = (refl, inr (inl refl))
  init-Built file (some fd) true io xyz =
      read-Built file fd io xyz (read_xyz (made file (some fd)) io xyz) refl
