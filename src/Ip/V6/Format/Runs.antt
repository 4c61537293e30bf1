-- ===== src/Ip/V6/Format/Runs.antt =====
-- The search of `compressed_ipv6` for a run of zeros: what it finds is one.
use iouxx.Base.{
  ℕ, zero, suc, ◌+◌, ◌<◌, List, [], ◌∷◌, ◌++◌, append-nil, append_assoc, ◌≡◌, refl, sym, ap, subst,
  if◌then◌else◌, ◌∙◌, arith, ◌==◌, ==_false, ltb, length, length-append, replicate, Bool-cases, inl,
  inr,
}
use iouxx.Ip.V6.Format.{Run, no_run, scan_word, scan}

-- `len` zeros from index `start` on.
pub record IsZeroRun (ws : List ℕ) (start len : ℕ) : Type 0 where
  pub before : List ℕ
  pub after : List ℕ
  pub splits : ws ≡ before ++ (replicate len 0 ++ after)
  pub starts : length before ≡ start

-- The run that ends with the words read so far.
record IsLastRun (ws : List ℕ) (start len : ℕ) : Type 0 where
  before : List ℕ
  splits : ws ≡ before ++ replicate len 0
  starts : 0 < len → length before ≡ start

record AreRuns (ws : List ℕ) (r : Run) : Type 0 where
  best : IsZeroRun ws r.best_start r.best_len
  last : IsLastRun ws r.cur_start r.cur_len

add_zeros : (k : ℕ) → suc (k + 1) ≡ suc k + 1
add_zeros k = omega arith

replicate-snoc : (k : ℕ) → replicate {A = ℕ} k 0 ++ 0 ∷ [] ≡ replicate (k + 1) 0
replicate-snoc zero = refl
replicate-snoc (suc k) = ap (◌∷◌ 0) (replicate-snoc k) ∙ ap (λ n. replicate n 0) (add_zeros k)

IsZeroRun-append :
    (ws vs : List ℕ) (start len : ℕ) → IsZeroRun ws start len → IsZeroRun (ws ++ vs) start len
IsZeroRun-append ws vs start len run = record {
  before = run.before;
  after = run.after ++ vs;
  splits = ap (λ l. l ++ vs) run.splits ∙ simp append_assoc;
  starts = run.starts;
}

IsZeroRun-of_IsLastRun :
    (ws : List ℕ) (start len : ℕ) → 0 < len → IsLastRun ws start len → IsZeroRun ws start len
IsZeroRun-of_IsLastRun ws start len pos run = record {
  before = run.before;
  after = [];
  splits = run.splits ∙ ap (◌++◌ run.before) (sym (append-nil (replicate len 0)));
  starts = run.starts pos;
}

last_start :
    (ws : List ℕ) (start len : ℕ) (run : IsLastRun ws start len)
    → length run.before ≡ (if len == 0 then length ws else start)
last_start ws start zero run = ap length (sym (run.splits ∙ append-nil run.before))
last_start ws start (suc len) run =
    run.starts (omega arith) ∙ rw (==_false (suc len) 0 (λ z. omega (arith, z)))

IsLastRun-zero :
    (ws : List ℕ) (start len : ℕ)
    → IsLastRun ws start len
    → IsLastRun (ws ++ 0 ∷ []) (if len == 0 then length ws else start) (len + 1)
IsLastRun-zero ws start len run = record {
  before = run.before;
  splits =
      ap (λ l. l ++ 0 ∷ []) run.splits
      ∙ append_assoc run.before (replicate len 0) (0 ∷ [])
      ∙ ap (◌++◌ run.before) (replicate-snoc len);
  starts = λ _. last_start ws start len run;
}

scan_word-AreRuns :
    (ws : List ℕ) (w : ℕ) (r : Run)
    → AreRuns ws r
    → AreRuns (ws ++ w ∷ []) (scan_word (length ws) w r)
unfolding scan_word
scan_word-AreRuns ws w r runs = elim (Bool-cases (w == 0)) [
  | inl hit ↦
      let null : w ≡ 0 = ground arith in
      let start = if r.cur_len == 0 then length ws else r.cur_start in
      let last = IsLastRun-zero ws r.cur_start r.cur_len runs.last in
      elim (Bool-cases (ltb r.best_len (r.cur_len + 1))) [
        | inl longer ↦
            rw (hit, longer, null)
              (record { best = IsZeroRun-of_IsLastRun _ start _ (omega arith) last; last = last })
        | inr shorter ↦
            rw (hit, shorter, null)
              (record { best = IsZeroRun-append ws (0 ∷ []) _ _ runs.best; last = last })
      ]
  | inr miss ↦ rw miss (record {
    best = IsZeroRun-append ws (w ∷ []) _ _ runs.best;
    last = record {
      before = ws ++ w ∷ [];
      splits = sym (append-nil (ws ++ w ∷ []));
      starts = λ p. absurd (omega arith);
    };
  })
]

scan-AreRuns :
    (vs ws : List ℕ) (i : ℕ) (r : Run)
    → i ≡ length ws
    → AreRuns ws r
    → AreRuns (ws ++ vs) (scan vs i r)
unfolding scan
scan-AreRuns [] ws i r e runs = rw append-nil runs
scan-AreRuns (v ∷ vs) ws i r e runs =
    subst (λ l. AreRuns l (scan vs (suc i) (scan_word i v r))) (append_assoc ws (v ∷ []) vs)
      (scan-AreRuns vs (ws ++ v ∷ []) (suc i) (scan_word i v r)
        (omega (arith, length-append {0} ws (v ∷ []), e)) (rw e (scan_word-AreRuns ws v r runs)))

-- What is found lies within the words, and all of it is zeros.
pub scan-IsZeroRun :
    (ws : List ℕ) → IsZeroRun ws (scan ws 0 no_run).best_start (scan ws 0 no_run).best_len
scan-IsZeroRun ws =
    (scan-AreRuns ws [] 0 no_run refl (record {
      best = record { before = []; after = []; splits = refl; starts = refl };
      last = record { before = []; splits = refl; starts = λ p. refl };
    })).best
