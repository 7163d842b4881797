-- ===== src/Main/Pool/Flushed.antt =====
-- In online mode, each task of the pool keeps this: the batches are flushed in order, and what
-- comes of them is offered to the hub.
use csnd.Prelude.{
  ℕ, ◌≡◌, refl, sym, ap, ap₂, subst, ◌∙◌, false, some, some-inj, List, [], ◌∷◌, ◌++◌, append-nil,
  append_assoc, Text, codes, Result, ok, err, ◌>>=◌, if◌then◌else◌,
}
use csnd.Accel.{AccelRecord}
use csnd.OutputFile.{Os}
use csnd.Iothub.{Hub, IsPrompt}
use csnd.Serializer.{Serializer}
use csnd.Main.{flush, record_data, send_data}
use csnd.Main.Sampling.Files.{serialize_all}
use csnd.Main.Pool.{
  Task, flush_batch, write_data, write_str, Pool, flushed, perform_task, run_first,
}
use csnd.Main.Pool.Tasks.{store, batches_of, oks, oks-append, serialize_all-snoc}
use csnd.Main.Pool.Offers.{stored, writers_run, writers_of, Offered, act-Offered}
use csnd.Main.Pool.Online.{batch_prop, offer, offer-Offered}

module _ {F S E D : Type 0} (serializer : Serializer F S E) (s0 : S) where
  -- The batches that have been flushed from the state `s0` on, and the files that they made.
  pub record Flushed (batches : List (List (AccelRecord F))) (files : List (List ℕ))
      (p : Pool F S D) : Type 0 where
    pub flushed : List (List (AccelRecord F))
    pub in_order : flushed ++ batches_of p.tasks ≡ batches
    pub state : (serialize_all serializer flushed s0).1 ≡ p.serializer
    pub made : oks (serialize_all serializer flushed s0).0 ≡ files

  -- More batches wait.
  pub queued-Flushed :
      (batches more_batches : List (List (AccelRecord F))) (files : List (List ℕ))
      (p p' : Pool F S D)
      → batches_of p'.tasks ≡ batches_of p.tasks ++ more_batches
      → p'.serializer ≡ p.serializer
      → Flushed batches files p
      → Flushed (batches ++ more_batches) files p'
  queued-Flushed batches more_batches files p p' tasks same k = record {
    flushed = k.flushed;
    in_order =
        ap (λ l. k.flushed ++ l) tasks
        ∙ sym (append_assoc k.flushed (batches_of p.tasks) more_batches)
        ∙ ap (λ l. l ++ more_batches) k.in_order;
    state = k.state ∙ sym same;
    made = k.made;
  }

  -- The first batch is flushed.
  flush-Flushed :
      (batches : List (List (AccelRecord F))) (files : List (List ℕ)) (b : List (AccelRecord F))
      (p p' : Pool F S D)
      → batches_of p.tasks ≡ b ∷ batches_of p'.tasks
      → p'.serializer ≡ (serializer.serialize (some b) p.serializer).1
      → Flushed batches files p
      → Flushed batches (files ++ oks ((serializer.serialize (some b) p.serializer).0 ∷ [])) p'
  flush-Flushed batches files b p p' first state k =
      let made = serialize_all serializer k.flushed s0 in
      let same = serialize_all-snoc serializer k.flushed b s0 in
      record {
        flushed = k.flushed ++ b ∷ [];
        in_order =
            append_assoc k.flushed (b ∷ []) (batches_of p'.tasks)
            ∙ ap (λ l. k.flushed ++ l) (sym first)
            ∙ k.in_order;
        state =
            ap (λ (m : List (Result E (List ℕ)) × S). m.1) same
            ∙ ap (λ s. (serializer.serialize (some b) s).1) k.state
            ∙ sym state;
        made =
            ap (λ (m : List (Result E (List ℕ)) × S). oks m.0) same
            ∙ oks-append made.0 ((serializer.serialize (some b) made.1).0 ∷ [])
            ∙ ap₂ (λ l s. l ++ oks ((serializer.serialize (some b) s).0 ∷ [])) k.made k.state;
      }

module _ {F S D : Type 0} (os : Os D) (hub : Hub D) (prompt : IsPrompt hub) (out_dir : Text)
    (world0 : D) where
  -- Neither a writer comes nor the world changes.
  pub same-Offered :
      (files : List (List ℕ)) (events : List Text) (p p' : Pool F S D)
      → writers_of p'.tasks ≡ writers_of p.tasks
      → p'.world ≡ p.world
      → Offered os prompt.deliver out_dir world0 files events p
      → Offered os prompt.deliver out_dir world0 files events p'
  same-Offered files events p p' writers world h = record {
    log = h.log;
    all_files = h.all_files;
    all_events = h.all_events;
    fallbacks = h.fallbacks ∙ ap (λ l. writers_run h.log ++ l) (sym writers);
    world = world ∙ h.world;
  }

module _ {F S E D : Type 0} (serializer : Serializer F S E) (os : Os D) (hub : Hub D)
    (prompt : IsPrompt hub) (out_dir : Text) (s0 : S) (world0 : D) where
  abbrev pub Online : List (List (AccelRecord F)) → List Text → Pool F S D → Type 0
  Online batches events p =
      (files : List (List ℕ)) × Flushed serializer s0 batches files p
      × Offered os prompt.deliver out_dir world0 files events p

  -- What the flush handler does in online mode.
  abbrev flush_online : Result E (List ℕ) → S → Pool F S D → Pool F S D
  flush_online (ok content) s p =
      offer os hub prompt out_dir world0 batch_prop (write_data content (codes "avro"))
        (record p { serializer = s })
  flush_online (err e) s p = record p { serializer = s }

  flush-online_lem :
      (b : List (AccelRecord F)) (p : Pool F S D)
      → perform_task serializer os hub false out_dir (flush_batch b) p
        ≡ flush_online
            (serializer.serialize (some b) p.serializer).0
            (serializer.serialize (some b) p.serializer).1
            p
  unfolding perform_task flush
  flush-online_lem b p =
      by_outcome (serializer.serialize (some b) p.serializer).0
        (serializer.serialize (some b) p.serializer).1
    where
      by_outcome :
          (r : Result E (List ℕ)) (s : S)
          → flushed hub
              (
                r >>= λ data_bytes. ok (
                    if false
                    then record_data data_bytes (codes ".avro")
                    else send_data ((codes "batch", codes "false") ∷ []) data_bytes (codes "avro")),
                s,
              )
              p
            ≡ flush_online r s p
      by_outcome (ok content) s = refl
      by_outcome (err e) s = refl

  flush_online-parts :
      (r : Result E (List ℕ)) (s : S) (files : List (List ℕ)) (events : List Text) (p : Pool F S D)
      → Offered os prompt.deliver out_dir world0 files events p
      → Offered os prompt.deliver out_dir world0 (files ++ oks (r ∷ [])) events (flush_online r s p)
        × (batches_of (flush_online r s p).tasks ≡ batches_of p.tasks)
        × ((flush_online r s p).serializer ≡ s)
  flush_online-parts (err e) s files events p h = (
    subst (λ l. Offered os prompt.deliver out_dir world0 l events (record p { serializer = s }))
        (sym (append-nil files))
        (same-Offered os hub prompt out_dir world0 files events p (record p { serializer = s }) refl
          refl h),
    refl,
    refl,
  )
  flush_online-parts (ok content) s files events p h =
      let p1 = record p { serializer = s } in
      let t : Task F = write_data content (codes "avro") in
      let (h', batches, state) =
        offer-Offered os hub prompt out_dir world0 files (content ∷ []) events [] batch_prop t p1
          refl refl refl refl
          (same-Offered os hub prompt out_dir world0 files events p p1 refl refl h) in
      (
        subst
            (λ l.
              Offered os prompt.deliver out_dir world0 (files ++ content ∷ []) l
                (flush_online (ok content) s p))
            (append-nil events) h',
        batches,
        state,
      )

  -- A writer has run.
  stored-Online :
      (batches : List (List (AccelRecord F))) (events : List Text) (p p' : Pool F S D) (t : Task F)
      (rest : List (Task F))
      → p.tasks ≡ t ∷ rest
      → writers_of (t ∷ rest) ≡ t ∷ writers_of rest
      → batches_of (t ∷ rest) ≡ batches_of rest
      → p'.tasks ≡ rest
      → p'.serializer ≡ p.serializer
      → p'.world ≡ store os out_dir t p.world
      → Online batches events p
      → Online batches events p'
  stored-Online batches events p p' t rest first writer no_batch left state world (files, k, h) = (
    files,
    subst (λ l. Flushed serializer s0 l files p') (append-nil batches)
        (queued-Flushed serializer s0 batches [] files p p'
          (ap batches_of left
            ∙ sym no_batch
            ∙ sym (ap batches_of first)
            ∙ sym (append-nil (batches_of p.tasks)))
          state k),
    subst (λ (l : List (List ℕ) × List Text). Offered os prompt.deliver out_dir world0 l.0 l.1 p')
        (ap₂ (λ a b. (a, b)) (append-nil files) (append-nil events))
        (act-Offered os prompt.deliver out_dir world0 files [] events [] p p' (stored t) refl refl
          (append-nil (writers_of p.tasks)
            ∙ ap writers_of first
            ∙ writer
            ∙ ap (λ l. t ∷ writers_of l) (sym left))
          world h),
  )

  pub first-Online :
      (batches : List (List (AccelRecord F))) (events : List Text) (p p' : Pool F S D)
      (tasks : List (Task F))
      → p.tasks ≡ tasks
      → run_first serializer os hub false out_dir tasks p ≡ some p'
      → Online batches events p
      → Online batches events p'
  unfolding run_first
  first-Online batches events p p' [] first e k = absurd (cc)
  first-Online batches events p p' (flush_batch b ∷ rest) first e (files, k, h) =
      let (r, s) = serializer.serialize (some b) p.serializer in
      let p1 = record p { tasks = rest } in
      let done = sym (flush-online_lem b p1) ∙ some-inj e in
      let (h', batches', state) = flush_online-parts r s files events p1 (
        same-Offered os hub prompt out_dir world0 files events p p1 (sym (ap writers_of first)) refl
          h) in
      (
        files ++ oks (r ∷ []),
        subst (Flushed serializer s0 batches (files ++ oks (r ∷ []))) done (
            flush-Flushed serializer s0 batches files b p (flush_online r s p1)
              (ap batches_of first ∙ ap (λ l. b ∷ l) (sym batches')) state k),
        subst (Offered os prompt.deliver out_dir world0 (files ++ oks (r ∷ [])) events) done h',
      )
  first-Online batches events p p' (write_data content suffix ∷ rest) first e k =
      subst (Online batches events) (some-inj e) (
        stored-Online batches events p _ (write_data content suffix) rest first refl refl refl refl
          refl k)
  first-Online batches events p p' (write_str str suffix ∷ rest) first e k =
      subst (Online batches events) (some-inj e) (
        stored-Online batches events p _ (write_str str suffix) rest first refl refl refl refl refl
          k)
