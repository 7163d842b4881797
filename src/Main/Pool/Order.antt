-- ===== src/Main/Pool/Order.antt =====
-- What the pool keeps in offline mode: the tasks that have run, followed by those that wait, hold the
-- batches, the files that were made of them, and the events, each in its order.
use csnd.Prelude.{
  ◌≡◌, refl, sym, ap, ap₂, subst, ◌∙◌, true, some, some-inj, List, [], ◌∷◌, ◌++◌, append-nil,
  append_assoc, All, All-append, Text, codes, Result, ◌>>=◌, if◌then◌else◌, ok, err, ℕ,
}
use csnd.Accel.{AccelRecord}
use csnd.OutputFile.{Os}
use csnd.Iothub.{Hub}
use csnd.Serializer.{Serializer}
use csnd.Main.{flush, record_data, send_data}
use csnd.Main.Sampling.Files.{serialize_all}
use csnd.Main.Pool.{
  Task, flush_batch, write_data, write_str, Pool, flushed, perform_task, run_first,
}
use csnd.Main.Pool.Tasks.{
  batches_of, files_of, strs_of, IsNamed, batches_of-append, files_of-append, strs_of-append, oks,
  oks-append, written_by, files_of-written_by, written_by-strs, written_by-batches,
  written_by-IsNamed, store, store_all, store_all-snoc, serialize_all-snoc,
}

-- The pool once the flush handler has run.
abbrev pub flush_parts : {F S E D : Type 0} → Result E (List ℕ) → S → D → List (Task F) → Pool F S D
flush_parts r s world rest = record { tasks = rest ++ written_by r; serializer = s; world = world }

module _ {F S E D : Type 0} (serializer : Serializer F S E) (os : Os D) (hub : Hub D)
    (out_dir : Text) where
  pub flush-parts :
      (b : List (AccelRecord F)) (p : Pool F S D)
      → let (r, s) = serializer.serialize (some b) p.serializer in
        perform_task serializer os hub true out_dir (flush_batch b) p
        ≡ flush_parts r s p.world p.tasks
  unfolding perform_task flush
  flush-parts b p =
      by_outcome (serializer.serialize (some b) p.serializer).0
        (serializer.serialize (some b) p.serializer).1
    where
      by_outcome :
          (r : Result E (List ℕ)) (s : S)
          → flushed hub
              (
                r >>= λ data_bytes. ok (
                    if true
                    then record_data data_bytes (codes ".avro")
                    else send_data ((codes "batch", codes "false") ∷ []) data_bytes (codes "avro")),
                s,
              )
              p
            ≡ flush_parts r s p.world p.tasks
      by_outcome (ok content) s = refl
      by_outcome (err e) s =
          ap (λ l. record { tasks = l; serializer = s; world = p.world }) (sym (append-nil p.tasks))

module _ {F S E D : Type 0} (serializer : Serializer F S E) (os : Os D) (hub : Hub D)
    (out_dir : Text) (s0 : S) (world0 : D) where
  -- From the states `s0` and `world0` on, with the batches and the events that were queued so far.
  pub record Kept (batches : List (List (AccelRecord F))) (events : List Text) (p : Pool F S D)
      : Type 0 where
    pub ran : List (Task F)
    pub in_order : batches_of (ran ++ p.tasks) ≡ batches
    pub state : (serialize_all serializer (batches_of ran) s0).1 ≡ p.serializer
    pub files : oks (serialize_all serializer (batches_of ran) s0).0 ≡ files_of (ran ++ p.tasks)
    pub strs : strs_of (ran ++ p.tasks) ≡ events
    pub named : All IsNamed (ran ++ p.tasks)
    pub stored : p.world ≡ store_all os out_dir ran world0

  -- Queueing at the end.
  pub queued-Kept :
      (batches more_batches : List (List (AccelRecord F))) (events more_events : List Text)
      (p : Pool F S D) (new : List (Task F))
      → batches_of new ≡ more_batches
      → strs_of new ≡ more_events
      → files_of new ≡ []
      → All IsNamed new
      → Kept batches events p
      → Kept (batches ++ more_batches) (events ++ more_events) (record p { tasks = p.tasks ++ new })
  queued-Kept batches more_batches events more_events p new some_batches some_events no_file named
        k =
      let there = append_assoc k.ran p.tasks new in
      record {
        ran = k.ran;
        in_order =
            ap batches_of (sym there)
            ∙ batches_of-append (k.ran ++ p.tasks) new
            ∙ ap₂ (λ a b. a ++ b) k.in_order some_batches;
        state = k.state;
        files =
            k.files
            ∙ sym (append-nil (files_of (k.ran ++ p.tasks)))
            ∙ ap (λ l. files_of (k.ran ++ p.tasks) ++ l) (sym no_file)
            ∙ sym (files_of-append (k.ran ++ p.tasks) new)
            ∙ ap files_of there;
        strs =
            ap strs_of (sym there)
            ∙ strs_of-append (k.ran ++ p.tasks) new
            ∙ ap₂ (λ a b. a ++ b) k.strs some_events;
        named = subst (All IsNamed) there (All-append IsNamed (k.ran ++ p.tasks) new k.named named);
        stored = k.stored;
      }

  -- The first task goes over to those that have run, and `new` is what it queues.
  shifted :
      (ran : List (Task F)) (t : Task F) (rest new : List (Task F))
      → (ran ++ t ∷ rest) ++ new ≡ (ran ++ t ∷ []) ++ (rest ++ new)
  shifted ran t rest new =
      append_assoc ran (t ∷ rest) new ∙ sym (append_assoc ran (t ∷ []) (rest ++ new))

  advanced-Kept :
      (batches : List (List (AccelRecord F))) (events : List Text) (p p' : Pool F S D) (t : Task F)
      (rest new : List (Task F)) (k : Kept batches events p)
      → p.tasks ≡ t ∷ rest
      → p'.tasks ≡ rest ++ new
      → batches_of new ≡ []
      → strs_of new ≡ []
      → All IsNamed new
      → let made = serialize_all serializer (batches_of k.ran) s0 in
        let made' = serialize_all serializer (batches_of (k.ran ++ t ∷ [])) s0 in
        (made'.1 ≡ p'.serializer) × (oks made'.0 ≡ oks made.0 ++ files_of new)
        → p'.world ≡ store os out_dir t p.world
        → Kept batches events p'
  advanced-Kept batches events p p' t rest new k first left no_batch no_str named made world =
      let now : (k.ran ++ p.tasks) ++ new ≡ (k.ran ++ t ∷ []) ++ p'.tasks =
        ap (λ l. (k.ran ++ l) ++ new) first
        ∙ shifted k.ran t rest new
        ∙ ap (λ l. (k.ran ++ t ∷ []) ++ l) (sym left) in
      record {
        ran = k.ran ++ t ∷ [];
        in_order =
            ap batches_of (sym now)
            ∙ batches_of-append (k.ran ++ p.tasks) new
            ∙ ap₂ (λ a b. a ++ b) k.in_order no_batch
            ∙ append-nil batches;
        state = made.0;
        files =
            made.1
            ∙ ap (λ l. l ++ files_of new) k.files
            ∙ sym (files_of-append (k.ran ++ p.tasks) new)
            ∙ ap files_of now;
        strs =
            ap strs_of (sym now)
            ∙ strs_of-append (k.ran ++ p.tasks) new
            ∙ ap₂ (λ a b. a ++ b) k.strs no_str
            ∙ append-nil events;
        named = subst (All IsNamed) now (All-append IsNamed (k.ran ++ p.tasks) new k.named named);
        stored =
            world
            ∙ ap (store os out_dir t) k.stored
            ∙ sym (store_all-snoc os out_dir k.ran t world0);
      }

  -- A writer leaves the serializer alone.
  writer-made :
      (ran : List (Task F)) (t : Task F) (s : S)
      → batches_of (t ∷ []) ≡ []
      → let made = serialize_all serializer (batches_of ran) s0 in
        let made' = serialize_all serializer (batches_of (ran ++ t ∷ [])) s0 in
        made.1 ≡ s → (made'.1 ≡ s) × (oks made'.0 ≡ oks made.0 ++ [])
  writer-made ran t s none_there state =
      let same =
        batches_of-append ran (t ∷ [])
        ∙ ap (λ l. batches_of ran ++ l) none_there
        ∙ append-nil (batches_of ran) in
      (
        ap (λ l. (serialize_all serializer l s0).1) same ∙ state,
        ap (λ l. oks (serialize_all serializer l s0).0) same
            ∙ sym (append-nil (oks (serialize_all serializer (batches_of ran) s0).0)),
      )

  flush-made :
      (ran : List (Task F)) (b : List (AccelRecord F)) (s : S)
      → let made = serialize_all serializer (batches_of ran) s0 in
        let made' = serialize_all serializer (batches_of (ran ++ flush_batch b ∷ [])) s0 in
        let (r, s') = serializer.serialize (some b) s in
        made.1 ≡ s → (made'.1 ≡ s') × (oks made'.0 ≡ oks made.0 ++ files_of (written_by {F = F} r))
  flush-made ran b s state =
      let made = serialize_all serializer (batches_of ran) s0 in
      let same =
        ap (λ l. serialize_all serializer l s0) (batches_of-append ran (flush_batch b ∷ []))
        ∙ serialize_all-snoc serializer (batches_of ran) b s0 in
      (
        ap (λ (m : List (Result E (List ℕ)) × S). m.1) same
            ∙ ap (λ s. (serializer.serialize (some b) s).1) state,
        ap (λ (m : List (Result E (List ℕ)) × S). oks m.0) same
            ∙ oks-append made.0 ((serializer.serialize (some b) made.1).0 ∷ [])
            ∙ ap (λ l. oks made.0 ++ l)
                (files_of-written_by F (serializer.serialize (some b) made.1).0
                  ∙ ap (λ s. files_of (written_by {F = F} (serializer.serialize (some b) s).0))
                      state),
      )

  pub first-Kept :
      (batches : List (List (AccelRecord F))) (events : List Text) (p p' : Pool F S D)
      (tasks : List (Task F))
      → p.tasks ≡ tasks
      → run_first serializer os hub true out_dir tasks p ≡ some p'
      → Kept batches events p
      → Kept batches events p'
  unfolding run_first
  first-Kept batches events p p' [] first e k = absurd (cc)
  first-Kept batches events p p' (flush_batch b ∷ rest) first e k =
      let (r, s) = serializer.serialize (some b) p.serializer in
      let done =
        sym (flush-parts serializer os hub out_dir b (record p { tasks = rest })) ∙ some-inj e in
      subst (Kept batches events) done (
        advanced-Kept batches events p (flush_parts r s p.world rest) (flush_batch b) rest
          (written_by r) k first refl (written_by-batches F r) (written_by-strs F r)
          (written_by-IsNamed F r) (flush-made k.ran b p.serializer k.state) refl)
  first-Kept batches events p p' (write_data content suffix ∷ rest) first e k =
      subst (Kept batches events) (some-inj e) (
        advanced-Kept batches events p _ (write_data content suffix) rest [] k first
          (sym (append-nil rest)) refl refl tt
          (writer-made k.ran (write_data content suffix) p.serializer refl k.state) refl)
  first-Kept batches events p p' (write_str str suffix ∷ rest) first e k =
      subst (Kept batches events) (some-inj e) (
        advanced-Kept batches events p _ (write_str str suffix) rest [] k first
          (sym (append-nil rest)) refl refl tt
          (writer-made k.ran (write_str str suffix) p.serializer refl k.state) refl)
