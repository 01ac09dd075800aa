-- ===== src/Lsm/Journaled/Recovery.antt =====
-- What a reopened memtable holds.
use mathlib.Core.Path.{subst}
use strata_db.Prelude.{
  ℕ, ◌<◌, ◌^◌, ◌≡◌, refl, sym, ap, ◌∙◌, List, [], ◌∷◌, ◌++◌, append-nil, map, length, All,
  All-append, Result, ok, err, and_then, Result-cases, and_then-cong, inl, inr,
}
use strata_db.Journal.Log.{Journal, header, open_journal, append}
use strata_db.Journal.Log.Replay.{
  Fits, Holds, replay-Holds, append-Holds, truncate-Holds, reopen-Holds, empty-Holds,
  open_journal-empty,
}
use strata_db.Lsm.Error.{WriteError}
use strata_db.Lsm.Key.{KeyValue}
use strata_db.Lsm.Data.{encode_kv, decode_kv}
use strata_db.Lsm.Data.RoundTrip.{FitsEntry, decode_kv-encode_kv}
use strata_db.Lsm.Journaled.Store.{put_all, put_all-append, Clears}
use strata_db.Lsm.Journaled.{
  MemStore, decode_record, kv_codec, Journaled, replay_into, open_journaled, put_logged,
  clear_logged,
}

-- A record whose fields fit their widths.
pub record FitsRecord (kv : KeyValue) : Type 0 where
  pub entry : FitsEntry kv
  pub len : length (encode_kv kv) < 2 ^ 32

decode_record-encode_kv : (kv : KeyValue) → FitsEntry kv → decode_record (encode_kv kv) ≡ ok kv
unfolding decode_record
decode_record-encode_kv kv fits = rw (decode_record, whole) refl
  where
    whole : decode_kv (encode_kv kv) ≡ ok (kv, [])
    whole = ap decode_kv (sym (append-nil (encode_kv kv))) ∙ (decode_kv-encode_kv kv fits).at []

module _ (crc32 : List ℕ → ℕ) (crc_u32 : (p : List ℕ) → crc32 p < 2 ^ 32) {M : Type 0}
    (store : MemStore M) (fresh : M) (clears : Clears store fresh) where
  FitsRecord-Fits : (kv : KeyValue) → FitsRecord kv → Fits crc32 kv_codec kv
  FitsRecord-Fits kv f = record {
    len = f.len;
    crc = crc_u32 (encode_kv kv);
    decodes = decode_record-encode_kv kv f.entry;
  }

  -- What calls on a journaled memtable reach, with the puts accepted since the last clear.
  pub data Reach : Journaled M → List KeyValue → Type 0 where
    started : (s : Journaled M) → open_journaled crc32 store [] fresh ≡ ok s → Reach s []
    accepted :
        (s s' : Journaled M) (log : List KeyValue) (kv : KeyValue)
        → Reach s log
        → FitsRecord kv
        → put_logged crc32 store kv s ≡ (ok tt, s')
        → Reach s' (log ++ (kv ∷ []))
    cleared :
        (s : Journaled M) (log : List KeyValue)
        → Reach s log
        → Reach (clear_logged crc32 store s) []
    reopened :
        (s s' : Journaled M) (log : List KeyValue)
        → Reach s log
        → open_journaled crc32 store s.journal.file.bytes fresh ≡ ok s'
        → Reach s' log

  record Durable (s : Journaled M) (log : List KeyValue) : Type 0 where
    holds : Holds crc32 kv_codec log s.journal
    fits : All (Fits crc32 kv_codec) log
    applied : put_all store log fresh ≡ ok s.inner

  replay_into-ok :
      (log : List KeyValue) (m : M) → replay_into crc32 store (map ok log) m ≡ put_all store log m
  unfolding replay_into put_all
  replay_into-ok [] m = refl
  replay_into-ok (kv ∷ log) m = and_then-cong (store.put kv m) _ _ (replay_into-ok log)

  open_journaled-replays :
      (disk : List ℕ) (log : List KeyValue) (j : Journal)
      → open_journal disk ≡ ok j
      → Holds crc32 kv_codec log j
      → All (Fits crc32 kv_codec) log
      → open_journaled crc32 store disk fresh
        ≡ and_then (put_all store log fresh) (λ m. ok (record { inner = m; journal = j }))
  unfolding open_journaled
  open_journaled-replays disk log j e h fits =
      rw (open_journaled, e, replay-Holds crc32 kv_codec log j fits h, replay_into-ok log fresh)
        refl

  Durable-open :
      (s : Journaled M) (log : List KeyValue)
      → Durable s log
      → open_journaled crc32 store s.journal.file.bytes fresh ≡ ok s
  Durable-open s log d =
      open_journaled-replays s.journal.file.bytes log s.journal
        (reopen-Holds crc32 kv_codec log s.journal d.holds) d.holds d.fits
      ∙ (rw d.applied)

  abbrev empty_journal : Journal
  empty_journal = record { file = record { bytes = header; cursor = 6 } }

  unfoldable pub start : Journaled M
  start = record { inner = fresh; journal = empty_journal }

  start-Durable : Durable start []
  unfolding start put_all
  start-Durable = record { holds = empty-Holds crc32 kv_codec; fits = tt; applied = refl }

  pub open_journaled-empty : open_journaled crc32 store [] fresh ≡ ok start
  unfolding start put_all
  open_journaled-empty =
      open_journaled-replays [] [] empty_journal open_journal-empty (empty-Holds crc32 kv_codec) tt

  Durable-eq :
      (s s' : Journaled M) (log : List KeyValue) (r : Result WriteError (Journaled M))
      → r ≡ ok s
      → r ≡ ok s'
      → Durable s log
      → Durable s' log
  Durable-eq s s' log r e e' d = let same : s ≡ s' = cc in subst (λ k. Durable k log) same d

  -- What `put` answers and leaves behind, by the answer of the inner store.
  pub put_logged-ok :
      (s : Journaled M) (kv : KeyValue) (m : M)
      → store.put kv s.inner ≡ ok m
      → put_logged crc32 store kv s
        ≡ (ok tt, record { inner = m; journal = append crc32 kv_codec kv s.journal })
  unfolding put_logged
  put_logged-ok s kv m e = rw (put_logged, e) refl

  pub put_logged-err :
      (s : Journaled M) (kv : KeyValue) (w : WriteError)
      → store.put kv s.inner ≡ err w
      → put_logged crc32 store kv s
        ≡ (err w, record { inner = s.inner; journal = append crc32 kv_codec kv s.journal })
  unfolding put_logged
  put_logged-err s kv w e = rw (put_logged, e) refl

  accepted-Durable :
      (s s' : Journaled M) (log : List KeyValue) (kv : KeyValue)
      → FitsRecord kv
      → put_logged crc32 store kv s ≡ (ok tt, s')
      → Durable s log
      → Durable s' (log ++ (kv ∷ []))
  accepted-Durable s s' log kv f p d = elim (Result-cases (store.put kv s.inner)) [
    | inl (m, e) ↦
        subst (λ k. Durable k (log ++ (kv ∷ []))) (ap (λ q. q.1) (sym (put_logged-ok s kv m e) ∙ p))
          (record {
            holds = append-Holds crc32 kv_codec log kv s.journal d.holds;
            fits = All-append (Fits crc32 kv_codec) log (kv ∷ []) d.fits (FitsRecord-Fits kv f, tt);
            applied = put_all-append store log kv fresh ∙ (rw d.applied e);
          })
    | inr (w, e) ↦ let refused = ap (λ q. q.0) (sym (put_logged-err s kv w e) ∙ p) in cc
  ]

  cleared-Durable :
      (s : Journaled M) (log : List KeyValue)
      → Durable s log
      → Durable (clear_logged crc32 store s) []
  unfolding put_all clear_logged Clears
  cleared-Durable s log d = record {
    holds = truncate-Holds crc32 kv_codec log s.journal d.holds;
    fits = tt;
    applied = ap ok (sym (clears log s.inner d.applied));
  }

  Reach-Durable : (s : Journaled M) (log : List KeyValue) → Reach s log → Durable s log
  Reach-Durable s _ (started _ e) = Durable-eq start s [] _ open_journaled-empty e start-Durable
  Reach-Durable s' _ (accepted s _ log kv r f p) =
      accepted-Durable s s' log kv f p (Reach-Durable s log r)
  Reach-Durable _ _ (cleared s log r) = cleared-Durable s log (Reach-Durable s log r)
  Reach-Durable s' log (reopened s _ _ r e) =
      let d = Reach-Durable s log r in Durable-eq s s' log _ (Durable-open s log d) e d

  -- However opens, accepted puts and clears follow one another from an empty disk, with records
  -- whose fields fit their widths, a checksum of 32 bits and a store that a clear empties, the
  -- memtable is what the puts accepted since the last clear make of a fresh one, and a reopen with
  -- a fresh one succeeds and finds memtable and journal as they were.
  pub journaled_recovers :
      (s : Journaled M) (log : List KeyValue)
      → Reach s log
      → (put_all store log fresh ≡ ok s.inner)
        × (open_journaled crc32 store s.journal.file.bytes fresh ≡ ok s)
  journaled_recovers s log r = let d = Reach-Durable s log r in (d.applied, Durable-open s log d)

  -- A put is logged before the memtable may refuse it: after a refused put of a record that fits,
  -- on any reachable memtable, the next open replays the refused record, and fails with the same
  -- error.
  pub refused_put_breaks_open :
      (s : Journaled M) (log : List KeyValue) (kv : KeyValue) (w : WriteError)
      → Reach s log
      → FitsRecord kv
      → store.put kv s.inner ≡ err w
      → (s' : Journaled M) × (put_logged crc32 store kv s ≡ (err w, s'))
        × (open_journaled crc32 store s'.journal.file.bytes fresh ≡ err w)
  refused_put_breaks_open s log kv w r f e =
      let d = Reach-Durable s log r in
      let logged = append-Holds crc32 kv_codec log kv s.journal d.holds in
      (
        _,
        put_logged-err s kv w e,
        open_journaled-replays _ (log ++ (kv ∷ [])) _ (reopen-Holds crc32 kv_codec _ _ logged)
              logged
              (All-append (Fits crc32 kv_codec) log (kv ∷ []) d.fits (FitsRecord-Fits kv f, tt))
            ∙ (rw (put_all-append store log kv fresh, d.applied, e) refl),
      )
