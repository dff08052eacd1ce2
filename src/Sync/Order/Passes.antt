-- ===== src/Sync/Order/Passes.antt =====
-- The order of effects in a range's download and scan, and in a whole pass.
use zcash_devtool_sqlx.Base.{
  ℕ, zero, suc, ◌≡◌, refl, ◌∙◌, Bool, true, false, Option, none, some, List, [], ◌∷◌,
}
use zcash_devtool_sqlx.Base.Effects.Ends.{
  Ends, Ends-pure, Ends-bind, Ends-see, Ends-emit, Ends-call, Ends-if,
}
use zcash_devtool_sqlx.Base.Effects.Keeps.{
  Keeps, Keeps-history, Keeps-bind, Keeps-ask, Keeps-if, Keeps-pure,
}
use zcash_devtool_sqlx.Sync.World.{
  World, Step, History, Message, BlockMeta, sent, fetching, scanning,
}
use zcash_devtool_sqlx.Sync.Steps.{
  requested, send, download_blocks, download_chain_state, scan_blocks,
}
use zcash_devtool_sqlx.Sync.Running.{
  LoopEnd, returns, goes_on, out_of_fuel, process_range, scan_range, after_verify, verify_loop,
  after_batch, batch_loop, after_batches, scan_queue, scan_rest, after_verification, running,
  is_verify,
}
use zcash_devtool_sqlx.Sync.Quiet.{
  IsQuiet, requested-Keeps, send-Keeps, send_summary-Keeps, suggest-Keeps, tip-Keeps,
  refresh_accounts-Keeps, delete-Keeps, after_scan-Keeps, interrupted-Keeps,
}
use zcash_devtool_sqlx.Sync.Order.{
  AfterWrite, AfterPoll, AfterState, IsOrdered, IsOrdered-IsQuiet, fetch_blocks-IsOrdered,
  await-IsOrdered,
}

module _ (w : World) where
  open w use {ranges, shutdown_requested, ChainState}
  open ranges use {ScanRange, start, stop, priority, sub_height}

  abbrev quiet : IsQuiet w (IsOrdered w)
  quiet = IsOrdered-IsQuiet w

  -- A message keeps what looks behind messages.
  send-Ends :
      (P : History w → Type 0)
      → ((t : History w) (m : Message ScanRange) → P t → P (sent m ∷ t))
      → (m : Message ScanRange) (t : History w) → IsOrdered w t × P t
      → Ends (λ _ t. IsOrdered w t × P t) (IsOrdered w) (send w m) t
  unfolding send
  send-Ends P keep m t h =
      Ends-if t w.has_tui _ _
        (λ _.
          Ends-bind {P = λ _ t. IsOrdered w t × P t} _ _ t (Ends-see t w.tui_gone h) (λ gone t h.
            Ends-bind {P = λ _ t. IsOrdered w t × P t} _ _ t
              (Ends-emit t (sent m) (h.0, keep t m h.1)) (λ _ t h. Ends-pure t gone h)))
        (λ _. Ends-pure t false h)

  download-Ends :
      (r : ScanRange) (t : History w)
      → IsOrdered w t
      → Ends (λ _ t. IsOrdered w t × AfterWrite w t) (IsOrdered w) (download_blocks w r) t
  unfolding download_blocks
  download-Ends r t o =
      Ends-bind {P = λ _. IsOrdered w} _ _ t ((send-Keeps w quiet _).at t o) (λ _ t o.
        Ends-bind {P = λ _. IsOrdered w} _ _ t ((Keeps-ask _).at t o) (λ stream t o.
          Ends-bind {P = λ _. IsOrdered w} _ _ t ((fetch_blocks-IsOrdered w stream).at t o)
            (λ metas t o.
              Ends-bind {P = λ _ t. IsOrdered w t × AfterWrite w t} _ _ t
                (Ends-call t _ _ (λ _ _. (o, tt)) o)
                (λ _ t h.
                  Ends-bind {P = λ _ t. IsOrdered w t × AfterWrite w t} _ _ t
                    (send-Ends (AfterWrite w) (λ _ _ h. h) (fetching none) t h)
                    (λ _ t h. Ends-pure t metas h)))))

  requested-Ends :
      (t : History w)
      → IsOrdered w t × AfterWrite w t
      → Ends (λ b t. IsOrdered w t × (b ≡ false → AfterPoll w t)) (IsOrdered w) (requested w) t
  unfolding requested
  requested-Ends t (o, a) =
      Ends-bind {P = λ b t. (IsOrdered w t × AfterWrite w t) × (shutdown_requested t ≡ b)} _ _ t
        (Ends-see t shutdown_requested ((o, a), refl))
        (λ b t ((o, a), e).
          Ends-bind {P = λ _ t. IsOrdered w t × (b ≡ false → AfterPoll w t)} _ _ t
            (Ends-emit t _ (o, λ f. (e ∙ f, a))) (λ _ t h. Ends-pure t b h))

  scan_blocks-Ends :
      (state : ChainState) (r : ScanRange) (tip : ℕ) (t : History w)
      → IsOrdered w t × AfterState w (sub_height (start r) 1) t
      → Ends (λ _. IsOrdered w) (IsOrdered w) (scan_blocks w state r tip) t
  unfolding scan_blocks
  scan_blocks-Ends state r tip t h =
      let h' = sub_height (start r) 1 in
      Ends-bind {P = λ _ t. IsOrdered w t × AfterState w h' t} _ _ t
        (send-Ends (AfterState w h') (λ _ _ h. h) (scanning (some (start r, stop r))) t h)
        (λ _ t h.
          Ends-bind {P = λ _ t. IsOrdered w t × AfterState w h' t} _ _ t (Ends-see t _ h)
            (λ outcome t h.
              Ends-bind {P = λ _. IsOrdered w} _ _ t (Ends-emit t _ (h.1, h.0)) (λ _ t o.
                (Keeps-bind _ _ (send-Keeps w quiet _) (λ _.
                    Keeps-bind _ _ (send_summary-Keeps w quiet)
                      (λ _. after_scan-Keeps w quiet outcome r tip))).at
                  t o)))

  scan_range-Ends :
      (r : ScanRange) (metas : List BlockMeta) (tip : ℕ) (t : History w)
      → IsOrdered w t × AfterPoll w t
      → Ends (λ _. IsOrdered w) (IsOrdered w) (scan_range w r metas tip) t
  unfolding scan_range download_chain_state
  scan_range-Ends r metas tip t (o, p) =
      Ends-bind {P = λ _ t. IsOrdered w t × AfterState w (sub_height (start r) 1) t} _ _ t
        (Ends-call t _ _ (λ _ _. (o, (refl, p))) o)
        (λ state t h.
          Ends-bind {P = λ _. IsOrdered w} _ _ t (scan_blocks-Ends state r tip t h) (λ updated t o.
            (Keeps-bind _ _ (delete-Keeps w quiet metas) (λ d. Keeps-pure _)).at t o))

  process_range-IsOrdered : (r : ScanRange) (tip : ℕ) → Keeps (IsOrdered w) (process_range w r tip)
  unfolding process_range
  process_range-IsOrdered r tip = record {
    at = λ t o.
        Ends-bind {P = λ _ t. IsOrdered w t × AfterWrite w t} _ _ t (download-Ends r t o)
          (λ metas t h.
            Ends-bind {P = λ b t. IsOrdered w t × (b ≡ false → AfterPoll w t)} _ _ t
              (requested-Ends t h)
              (λ quit t h.
                Ends-if t quit _ _ (λ _. Ends-pure t none h.0)
                  (λ no_quit. scan_range-Ends r metas tip t (h.0, h.1 no_quit))));
  }

  after_verify-IsOrdered :
      (again : List ScanRange → List (List BlockMeta) → Step w (LoopEnd (List (List BlockMeta))))
      (deletions : List (List BlockMeta)) (tip : ℕ) (done : Option (Bool × List BlockMeta))
      → ((found : List ScanRange) (d : List (List BlockMeta)) → Keeps (IsOrdered w) (again found d))
      → Keeps (IsOrdered w) (after_verify w again deletions tip done)
  unfolding after_verify
  after_verify-IsOrdered again deletions tip none h = Keeps-pure _
  after_verify-IsOrdered again deletions tip (some (false, d)) h = Keeps-pure _
  after_verify-IsOrdered again deletions tip (some (true, d)) h =
      Keeps-bind _ _ (suggest-Keeps w quiet) (λ found.
        Keeps-bind _ _ (interrupted-Keeps w quiet found tip)
          (λ quit. Keeps-if quit _ _ (Keeps-pure _) (h found _)))

  verify_loop-IsOrdered :
      (fuel tip : ℕ) (found : List ScanRange) (d : List (List BlockMeta))
      → Keeps (IsOrdered w) (verify_loop w fuel tip found d)
  unfolding verify_loop
  verify_loop-IsOrdered zero tip found d = Keeps-pure _
  verify_loop-IsOrdered (suc fuel) tip [] d = Keeps-pure _
  verify_loop-IsOrdered (suc fuel) tip (r ∷ rest) d =
      Keeps-if (is_verify (priority r)) _ _
        (Keeps-bind _ _ (process_range-IsOrdered r tip)
          (λ done. after_verify-IsOrdered _ d tip done (verify_loop-IsOrdered fuel tip)))
        (Keeps-pure _)

  after_batch-IsOrdered :
      (again : List (List BlockMeta) → Step w (LoopEnd (List (List BlockMeta))))
      (deletions : List (List BlockMeta)) (done : Option (Bool × List BlockMeta))
      → ((d : List (List BlockMeta)) → Keeps (IsOrdered w) (again d))
      → Keeps (IsOrdered w) (after_batch w again deletions done)
  unfolding after_batch
  after_batch-IsOrdered again deletions none h = Keeps-pure _
  after_batch-IsOrdered again deletions (some (updated, d)) h =
      Keeps-bind _ _ (Keeps-if updated _ _ (Keeps-pure _) (requested-Keeps w quiet)) (λ quit.
        Keeps-if quit _ _
          (Keeps-bind _ _ (await-IsOrdered w _)
            (λ _. Keeps-bind _ _ (requested-Keeps w quiet) (λ _. Keeps-pure _)))
          (h _))

  batch_loop-IsOrdered :
      (tip : ℕ) (queue : List ScanRange) (d : List (List BlockMeta))
      → Keeps (IsOrdered w) (batch_loop w tip queue d)
  unfolding batch_loop
  batch_loop-IsOrdered tip [] d = Keeps-pure _
  batch_loop-IsOrdered tip (r ∷ rest) d =
      Keeps-bind _ _ (process_range-IsOrdered r tip)
        (λ done. after_batch-IsOrdered _ d done (batch_loop-IsOrdered tip rest))

  after_batches-IsOrdered :
      (e : LoopEnd (List (List BlockMeta))) → Keeps (IsOrdered w) (after_batches w e)
  unfolding after_batches
  after_batches-IsOrdered (returns b) = Keeps-pure _
  after_batches-IsOrdered out_of_fuel = Keeps-pure _
  after_batches-IsOrdered (goes_on d) = Keeps-bind _ _ (await-IsOrdered w d) (λ _. Keeps-pure _)

  scan_queue-IsOrdered :
      (d : List (List BlockMeta)) (tip : ℕ) (q : Option (List ScanRange))
      → Keeps (IsOrdered w) (scan_queue w d tip q)
  unfolding scan_queue
  scan_queue-IsOrdered d tip none = Keeps-pure _
  scan_queue-IsOrdered d tip (some q) =
      Keeps-bind _ _ (batch_loop-IsOrdered tip q d) after_batches-IsOrdered

  after_verification-IsOrdered :
      (tip : ℕ) (e : LoopEnd (List (List BlockMeta)))
      → Keeps (IsOrdered w) (after_verification w tip e)
  unfolding after_verification scan_rest
  after_verification-IsOrdered tip (returns b) = Keeps-pure _
  after_verification-IsOrdered tip out_of_fuel = Keeps-pure _
  after_verification-IsOrdered tip (goes_on d) = Keeps-bind _ _ (suggest-Keeps w quiet) (λ found.
      Keeps-bind _ _ (interrupted-Keeps w quiet found tip)
        (λ quit. Keeps-if quit _ _ (Keeps-pure _) (scan_queue-IsOrdered d tip _)))

  pass-IsOrdered : (fuel : ℕ) → Keeps (IsOrdered w) (running w fuel)
  unfolding running
  pass-IsOrdered fuel = Keeps-bind _ _ (tip-Keeps w quiet) (λ tip.
      Keeps-bind _ _ (send_summary-Keeps w quiet) (λ _. Keeps-bind _ _ (Keeps-ask _) (λ accounts.
        Keeps-bind _ _ (refresh_accounts-Keeps w quiet accounts) (λ _.
          Keeps-bind _ _ (suggest-Keeps w quiet) (λ found.
            Keeps-bind _ _ (interrupted-Keeps w quiet found tip) (λ quit.
              Keeps-if quit _ _ (Keeps-pure _) (
                Keeps-bind _ _ (verify_loop-IsOrdered fuel tip found [])
                  (after_verification-IsOrdered tip))))))))

  -- Whether a pass succeeds or fails, and whatever the server, the databases and the user do: if
  -- every scan so far stood behind the chain state of the block before its range, a poll that
  -- found no request to shut down, and the write of downloaded metadata, with nothing but messages
  -- to the interface between them, then so does every scan of the pass.
  pub running-IsOrdered :
      (fuel : ℕ) (t : History w) → IsOrdered w t → IsOrdered w (running w fuel t).1
  running-IsOrdered fuel t o = Keeps-history (pass-IsOrdered fuel) t o
