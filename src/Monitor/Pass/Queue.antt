-- ===== src/Monitor/Pass/Queue.antt =====
-- The loops over the queue go round it once.
use frozen_hot.Base.{
  ℕ, ◌≡◌, refl, sym, ap, ◌∙◌, subst, Bool, true, false, not, ◌&&◌, ◌||◌, List, [], ◌∷◌, ◌++◌, ◌==◌,
  has, Distinct, length, if◌then◌else◌, arith, Bool-cases, inl, inr,
}
use mathlib.Core.List.{append_assoc, append-nil}
use frozen_hot.External.{Double}
use frozen_hot.Monitor.Calls.{
  construct_tier, construct_ratio, deconstruct, reset_cursor, print_step, Log, constructed,
}
use frozen_hot.Monitor.Search.{with_threshold}
use frozen_hot.Monitor.Pass.{
  rotate, build, give_up, set_insert, Reading, Queued, is_slow, assign, check_shards, pass,
}

rotate-append : (queue rest : List ℕ) → rotate (length queue) (queue ++ rest) ≡ rest ++ queue
unfolding rotate
rotate-append [] rest = sym (append-nil rest)
rotate-append (x ∷ queue) rest =
    subst (λ l. rotate (length queue) l ≡ rest ++ x ∷ queue)
      (sym (append_assoc queue rest (x ∷ [])))
      (rotate-append queue (rest ++ x ∷ []) ∙ append_assoc rest (x ∷ []) queue)

pub rotate-length : (queue : List ℕ) → rotate (length queue) queue ≡ queue
rotate-length queue =
    subst (λ l. rotate (length queue) l ≡ queue) (append-nil queue) (rotate-append queue [])

-- The calls of the loop that freezes.
abbrev built : Bool → List ℕ → Log → Log
built whole [] log = log
built whole (x ∷ queue) log =
    built whole queue
      (reset_cursor x ∷ (if whole then construct_tier x else construct_ratio x) ∷ log)

build-append :
    (whole : Bool) (queue rest : List ℕ) (log : Log)
    → build (length queue) whole (queue ++ rest) log ≡ (rest ++ queue, built whole queue log)
unfolding build
build-append whole [] rest log = ap (λ l. (l, log)) (sym (append-nil rest))
build-append whole (x ∷ queue) rest log =
    let calls = reset_cursor x ∷ (if whole then construct_tier x else construct_ratio x) ∷ log in
    subst (λ l. build (length queue) whole l calls ≡ (rest ++ x ∷ queue, built whole queue calls))
      (sym (append_assoc queue rest (x ∷ [])))
      (build-append whole queue (rest ++ x ∷ []) calls
        ∙ ap (λ l. (l, built whole queue calls)) (append_assoc rest (x ∷ []) queue))

pub build-length :
    (whole : Bool) (queue : List ℕ) (log : Log)
    → build (length queue) whole queue log ≡ (queue, built whole queue log)
build-length whole queue log =
    subst (λ l. build (length queue) whole l log ≡ (queue, built whole queue log))
      (append-nil queue) (build-append whole queue [] log)

pub constructed-built :
    (whole : Bool) (queue : List ℕ) (log : Log) (i : ℕ)
    → constructed (built whole queue log) i ≡ (if has i queue then true else constructed log i)
unfolding constructed
constructed-built whole [] log i = refl
constructed-built true (x ∷ queue) log i =
    ground (arith, constructed-built true queue (reset_cursor x ∷ construct_tier x ∷ log) i)
constructed-built false (x ∷ queue) log i =
    ground (arith, constructed-built false queue (reset_cursor x ∷ construct_ratio x ∷ log) i)

-- The members that pass a test.
abbrev pub keep : (ℕ → Bool) → List ℕ → List ℕ
keep p [] = []
keep p (x ∷ xs) = if p x then x ∷ keep p xs else keep p xs

-- A test of numbers does not tell equal numbers apart.
pub test_congr {ℓ} : {A : Type ℓ} (p : ℕ → A) (i x : ℕ) → (i == x) ≡ true → p i ≡ p x
test_congr p i x e = ap p (ground arith)

pub has-keep : (p : ℕ → Bool) (i : ℕ) (xs : List ℕ) → has i (keep p xs) ≡ (has i xs && p i)
has-keep p i [] = refl
has-keep p i (x ∷ xs) = ground (arith, has-keep p i xs, test_congr p i x)

keep-congr :
    (p q : ℕ → Bool) (xs : List ℕ) → ((i : ℕ) → has i xs ≡ true → p i ≡ q i) → keep p xs ≡ keep q xs
keep-congr p q [] same = refl
keep-congr p q (x ∷ xs) same =
    ground (arith, same x, keep-congr p q xs (λ i h. same i (ground arith)))

pub keep-Distinct : (p : ℕ → Bool) (xs : List ℕ) → Distinct xs → Distinct (keep p xs)
keep-Distinct p [] d = tt
keep-Distinct p (x ∷ xs) d = ground (arith, has-keep p x xs, keep-Distinct p xs d.1)

pub has-give_up :
    (i : ℕ) (queue failed : List ℕ) → has i (give_up queue failed) ≡ (has i queue || has i failed)
unfolding give_up
has-give_up i [] failed = refl
has-give_up i (x ∷ queue) failed = ground (arith, has-give_up i queue (set_insert x failed))

module _ (F : Double) where
  open F use {Number}

  -- The baselines of other shards do not count.
  assign_ne :
      (b : ℕ → Number) (x : ℕ) (v : Number) (i : ℕ) → (x == i) ≡ false → assign F b x v i ≡ b i
  assign_ne b x v i ne = rw ne refl

  -- What the loop that melts leaves: the slow shards in the queue, with a new baseline and melted.
  pub record Checked (r : Reading F) (queue rest : List ℕ) (b : ℕ → Number) (log : Log)
      (s : Queued F) : Type 0 where
    pub queued : s.queue ≡ rest ++ keep (is_slow F b r) queue
    pub measured :
        (i : ℕ) → s.baseline i ≡ (if has i queue && is_slow F b r i then r.again i else b i)
    pub melted :
        (i : ℕ)
        → constructed s.log i
          ≡ (if has i queue && is_slow F b r i then false else constructed log i)

  slow_other :
      (r : Reading F) (x : ℕ) (queue : List ℕ) (b : ℕ → Number)
      → Distinct (x ∷ queue)
      → (i : ℕ) → has i queue ≡ true
      → is_slow F (assign F b x (r.again x)) r i ≡ is_slow F b r i
  slow_other r x queue b d i h =
      let other : (x == i) ≡ false = ground (arith, test_congr (λ k. has k queue) i x, d) in
      ap (λ a. F.lt (with_threshold F a) (r.performance i)) (assign_ne b x (r.again x) i other)

  module _ {r : Reading F} {x : ℕ} {queue rest : List ℕ} {b : ℕ → Number} {log : Log} {s : Queued F}
      (d : Distinct (x ∷ queue)) where
    -- The first shard of the queue is fast, or slow.
    Checked-fast :
        is_slow F b r x ≡ false
        → Checked r queue rest b (print_step x ∷ log) s
        → Checked r (x ∷ queue) rest b log s
    unfolding constructed
    Checked-fast fast ih = record {
      queued = rw fast ih.queued;
      measured = λ i. ground (arith, ih.measured i, test_congr (is_slow F b r) i x);
      melted = λ i. ground (arith, ih.melted i, test_congr (is_slow F b r) i x);
    }

    Checked-slow :
        is_slow F b r x ≡ true
        → Checked r queue
            (rest ++ x ∷ [])
            (assign F b x (r.again x))
            (deconstruct x ∷ print_step x ∷ log)
            s
        → Checked r (x ∷ queue) rest b log s
    unfolding constructed
    Checked-slow slow ih =
        let other = slow_other r x queue b d in
        let once = λ (i : ℕ). test_congr (λ k. has k queue) i x in
        record {
          queued = rw slow (
              ih.queued
              ∙ append_assoc rest (x ∷ []) _
              ∙ ap (λ l. rest ++ x ∷ l) (keep-congr _ _ queue other));
          measured = λ i. ground (
            arith,
            ih.measured i,
            other i,
            once i,
            d,
            test_congr (is_slow F b r) i x,
            test_congr r.again i x,
          );
          melted =
              λ i. ground (arith, ih.melted i, other i, once i, d, test_congr (is_slow F b r) i x);
        }

  pub check_shards-Checked :
      (r : Reading F) (queue rest : List ℕ) (b : ℕ → Number) (log : Log)
      → Distinct queue
      → Checked r queue rest b log (check_shards F r (length queue) (queue ++ rest) b log)
  unfolding check_shards constructed
  check_shards-Checked r [] rest b log d = record {
    queued = sym (append-nil rest);
    measured = λ i. refl;
    melted = λ i. refl;
  }
  check_shards-Checked r (x ∷ queue) rest b log d = elim (Bool-cases (is_slow F b r x)) [
    | inl slow ↦
        let b' = assign F b x (r.again x) in
        let log' = deconstruct x ∷ print_step x ∷ log in
        rw (slow, check_shards)
          (Checked-slow d slow (
            subst
              (λ l.
                Checked r queue (rest ++ x ∷ []) b' log'
                  (check_shards F r (length queue) l b' log'))
              (sym (append_assoc queue rest (x ∷ [])))
              (check_shards-Checked r queue (rest ++ x ∷ []) b' log' d.1)))
    | inr fast ↦
        rw (fast, check_shards)
          (Checked-fast d fast (check_shards-Checked r queue rest b (print_step x ∷ log) d.1))
  ]

  -- What one pass leaves of the queue: the shards that were slow, and only these are melted.
  pub record Passed (r : Reading F) (s t : Queued F) : Type 0 where
    pub queued : t.queue ≡ keep (is_slow F s.baseline r) s.queue
    pub measured :
        (i : ℕ)
        → t.baseline i
          ≡ (if has i s.queue && is_slow F s.baseline r i then r.again i else s.baseline i)
    pub left :
        (i : ℕ)
        → constructed t.log i
          ≡ (if has i s.queue then not (is_slow F s.baseline r i) else constructed s.log i)

  pass-check_shards :
      (whole : Bool) (r : Reading F) (s : Queued F)
      → pass F whole r s
        ≡ check_shards F r (length s.queue) (s.queue ++ []) s.baseline (built whole s.queue s.log)
  unfolding pass
  pass-check_shards whole r s =
      rw
        (rotate-length s.queue, build-length whole s.queue s.log, rotate-length s.queue, append-nil)
        refl

  pub pass-Passed :
      (whole : Bool) (r : Reading F) (s : Queued F)
      → Distinct s.queue
      → Passed r s (pass F whole r s)
  pass-Passed whole r s d =
      let log = built whole s.queue s.log in
      let end = check_shards-Checked r s.queue [] s.baseline log d in
      rw (pass-check_shards whole r s) (record {
        queued = end.queued;
        measured = end.measured;
        left = λ i. ground (arith, end.melted i, constructed-built whole s.queue s.log i);
      })
