-- ===== src/Storage/Retention/Spares.antt =====
-- `prune` of crates/storage/src/retention.rs: which sessions it deletes, whatever fails.
use Prim.Native.String.{String}
use text.Mathlib.TextPositions.{eq_refl}
use mobius_searcher.Base.{
  ℕ, ◌*◌, ◌%◌, ◌^◌, ◌<◌, ◌≡◌, ◌≢◌, refl, sym, subst, ◌∙◌, Bool, true, false, ◌&&◌, not, Option,
  some, List, [], ◌∷◌, leb, if◌then◌else◌, arith, All, ◌⊎◌, inl, inr, Bool-cases,
}
use mobius_searcher.Base.Int.{pos, ◌-ℤ◌, ltb_ℤ, ◌≤ℤ◌, ◌<ℤ◌}
use mobius_searcher.Base.Words.{wrap_i64}
use mobius_searcher.Base.Results.{Result, ok, err, Result-cases, IfOk}
use mobius_searcher.Core.Time.{Ts}
use mobius_searcher.Storage.Retention.{
  Retention, Session, Kept, Store, Prune, PruneReport, hour_us, Ended, and_then, is_current,
  is_running, limit_for, delete, keep, sweep, trim_details, shrink, starting, sized, released,
  closing, prune_sessions, prune_from, prune,
}

abbrev pub In : Session → List Session → Type 0
In x [] = ⊥
In x (y ∷ ys) = (x ≡ y) ⊎ In x ys

if_both :
    {A : Type 0} (P : A → Type 0) (b : Bool) (x y : A)
    → (b ≡ true → P x)
    → (b ≡ false → P y)
    → P (if b then x else y)
if_both P true x y h k = h refl
if_both P false x y h k = k refl

and_then_lem :
    {W A B : Type 0} (P : Ended W B → Type 0) (e : Ended W A) (k : A → Prune W → Ended W B)
    → ((text : String) → P (err text, e.1))
    → ((a : A) → e.0 ≡ ok a → P (k a e.1))
    → P (and_then e k)
and_then_lem P (ok a, p) k h g = g a refl
and_then_lem P (err text, p) k h g = h text

over_lt : (a b : ℕ) → leb a b ≡ false → b < a
over_lt a b h = ground arith

not-true : (b : Bool) → not b ≡ true → b ≡ false
not-true true h = absurd (ground arith)
not-true false h = refl

both_true : (a b : Bool) → (not a && b) ≡ true → (a ≡ false) × (b ≡ true)
both_true true b h = absurd (ground arith)
both_true false b h = (refl, h)

module _ {W : Type 0} (db : Store W) (r : Retention) (now : Ts) (current : Option String) where
  abbrev pub cap : ℕ
  cap = r.max_db_mb * 1_000_000 % 2 ^ 64

  -- Why a session may go: it is not the current one, nor open with activity in the last hour; and
  -- it is older than its limit, which is the longer one if it had trades, or it had none and the
  -- database was over its size.
  pub record MayGo (x : Session) : Type 0 where
    pub not_current : current ≢ some x.id
    pub not_recording : (x.still_open ≡ false) ⊎ (pos hour_us ≤ℤ wrap_i64 (now -ℤ x.last))
    pub reason :
        (traded : Bool) × (v : W) × (db.has_trades x.id v ≡ ok traded)
        × ((x.last <ℤ limit_for db r now current traded)
            ⊎ ((traded ≡ false)
                × ((u : W) × (used : ℕ) × (db.used_bytes u ≡ ok used) × (cap < used))))

  abbrev pub Allowed : List Session → String → Type 0
  Allowed xs id = (x : Session) × In x xs × (x.id ≡ id) × MayGo x

  -- What is known of a session that stays.
  record Stays (xs : List Session) (k : Kept) : Type 0 where
    listed : In k.session xs
    running_as : k.running ≡ is_running db r now current k.session
    answered : (v : W) × (db.has_trades k.session.id v ≡ ok k.protected)

  current_is : (id : String) → current ≡ some id → is_current db r now current id ≡ true
  current_is id e = rw e (eq_refl id)

  at_rest :
      (x : Session)
      → is_running db r now current x ≡ false
      → (current ≢ some x.id) × ((x.still_open ≡ false) ⊎ (pos hour_us ≤ℤ wrap_i64 (now -ℤ x.last)))
  unfolding is_running
  at_rest x h = (
    λ e. let i = current_is x.id e in ground arith,
    elim (Bool-cases x.still_open) [ inl o ↦ inr (ground arith) | inr c ↦ inl c ],
  )

  delete-asked : (id : String) (p : Prune W) → (delete db r now current id p).1.asked ≡ id ∷ p.asked
  unfolding delete
  delete-asked id p = elim (Result-cases (db.delete_session id p.world).0) [
    | inl (n, e) ↦ rw (e, delete) refl
    | inr (text, e) ↦ rw (e, delete) refl
  ]

  abbrev Good : List Session → Prune W → Type 0
  Good all p = All (Allowed all) p.asked

  delete-Good :
      (all : List Session) (id : String) (p : Prune W)
      → Allowed all id
      → Good all p
      → Good all (delete db r now current id p).1
  delete-Good all id p a g = subst (λ l. All (Allowed all) l) (sym (delete-asked id p)) (a, g)

  abbrev Swept : List Session → Ended W (List Kept) → Type 0
  Swept all e = Good all e.1 × IfOk (All (Stays all)) e.0

  keep-Swept :
      (all : List Session) (k : Kept) (e : Ended W (List Kept))
      → Stays all k
      → Swept all e
      → Swept all (keep db r now current k e)
  keep-Swept all k (ok ks, p) h (g, i) = (g, (h, i))
  keep-Swept all k (err text, p) h (g, i) = (g, tt)

  sweep-Swept :
      (all xs : List Session) (p : Prune W)
      → ((x : Session) → In x xs → In x all)
      → Good all p
      → Swept all (sweep db r now current xs p)
  unfolding sweep
  sweep-Swept all [] p sub g = (g, tt)
  sweep-Swept all (x ∷ xs) p sub g =
      let later = λ (y : Session) (i : In y xs). sub y (inr i) in
      elim (Result-cases (db.has_trades x.id p.world)) [
        | inr (text, e) ↦ rw (e, sweep) (g, tt)
        | inl (traded, e) ↦
            let old = ltb_ℤ x.last (limit_for db r now current traded) in
            let stays : Kept = record {
              session = x;
              protected = traded;
              running = is_running db r now current x;
            } in
            rw (e, sweep)
              (if_both (Swept all) (not (is_running db r now current x) && old)
                (and_then (delete db r now current x.id p) (λ _ p'. sweep db r now current xs p'))
                (keep db r now current stays (sweep db r now current xs p))
                (λ due.
                  let (idle, late) = both_true (is_running db r now current x) old due in
                  let (a, b) = at_rest x idle in
                  let may : MayGo x = record {
                    not_current = a;
                    not_recording = b;
                    reason = (traded, p.world, e, inl (ground arith));
                  } in
                  let d = delete-Good all x.id p (x, sub x (inl refl), refl, may) g in
                  and_then_lem (Swept all) (delete db r now current x.id p)
                    (λ _ p'. sweep db r now current xs p') (λ text. (d, tt))
                    (λ _ _. sweep-Swept all xs (delete db r now current x.id p).1 later d))
                (λ _.
                  keep-Swept all stays (sweep db r now current xs p)
                    (record {
                      listed = sub x (inl refl);
                      running_as = refl;
                      answered = (p.world, e);
                    })
                    (sweep-Swept all xs p later g)))
      ]

  trim-Good :
      (all : List Session) (ks : List Kept) (p : Prune W)
      → Good all p
      → Good all (trim_details db r now current ks p).1
  unfolding trim_details
  trim-Good all [] p g = g
  trim-Good all (k ∷ ks) p g =
      let w = (db.delete_details k.session.id (limit_for db r now current false) p.world).1 in
      elim (Bool-cases k.protected) [
        | inl kept ↦ rw (kept, trim_details) (trim-Good all ks p g)
        | inr plain ↦
            elim (Result-cases
              (db.delete_details k.session.id (limit_for db r now current false) p.world).0) [
                | inl (n, e) ↦ rw (plain, e, trim_details) (trim-Good all ks _ g)
                | inr (text, e) ↦ rw (plain, e, trim_details) g
              ]
      ]

  shrink-Good :
      (all : List Session) (ks : List Kept) (p : Prune W)
      → All (Stays all) ks
      → Good all p
      → Good all (shrink db r now current ks p).1
  unfolding shrink
  shrink-Good all [] p s g = g
  shrink-Good all (k ∷ ks) p (s, ss) g = elim (Result-cases (db.used_bytes p.world)) [
    | inr (text, e) ↦ rw (e, shrink) g
    | inl (used, e) ↦
        let P = λ (x : Ended W (Unit {0})). Good all x.1 in
        let gone =
          and_then (delete db r now current k.session.id p)
            (λ _ p'. shrink db r now current ks p') in
        let next = shrink db r now current ks p in
        rw (e, shrink)
          (if_both P (leb used cap) (ok tt, p)
            (if not k.protected && not k.running then gone else next) (λ _. g)
            (λ over.
              if_both P (not k.protected && not k.running) gone next
                (λ due.
                  let (plain, quiet) = both_true k.protected (not k.running) due in
                  let idle : is_running db r now current k.session ≡ false =
                    sym s.running_as ∙ not-true k.running quiet in
                  let (a, b) = at_rest k.session idle in
                  let (v, answered) = s.answered in
                  let may : MayGo k.session = record {
                    not_current = a;
                    not_recording = b;
                    reason = (
                      k.protected,
                      v,
                      answered,
                      inr (plain, (p.world, used, e, over_lt used cap over)),
                    );
                  } in
                  let d = delete-Good all k.session.id p (k.session, s.listed, refl, may) g in
                  and_then_lem P (delete db r now current k.session.id p)
                    (λ _ p'. shrink db r now current ks p') (λ text. d)
                    (λ _ _. shrink-Good all ks (delete db r now current k.session.id p).1 ss d))
                (λ _. shrink-Good all ks p ss g)))
  ]

  sized-Good :
      (all : List Session) (p : Prune W) (answer : Result ℕ)
      → Good all p
      → Good all (sized db r now current p answer).1
  sized-Good all p (ok used) g = g
  sized-Good all p (err text) g = g

  released-Good :
      (all : List Session) (p : Prune W) (answer : Result (Unit {0}))
      → Good all p
      → Good all (released db r now current p answer).1
  released-Good all p (ok u) g = sized-Good all p (db.used_bytes p.world) g
  released-Good all p (err text) g = g

  closing-Good :
      (all : List Session) (p : Prune W) → Good all p → Good all (closing db r now current p).1
  closing-Good all p g =
      let (answer, w) = db.release p.world in released-Good all (record p { world = w }) answer g

  after_sweep :
      (all : List Session) (swept : Ended W (List Kept))
      → Good all swept.1
      → IfOk (All (Stays all)) swept.0
      → Good all
          (and_then swept (λ kept p. and_then (trim_details db r now current kept p) (λ _ p'.
            and_then (shrink db r now current kept p') (λ _ p''. closing db r now current p'')))).1
  after_sweep all (err text, p) g i = g
  after_sweep all (ok kept, p) g i =
      let P = λ (x : Ended W PruneReport). Good all x.1 in
      let trimmed = trim_details db r now current kept p in
      let t = trim-Good all kept p g in
      and_then_lem P trimmed _ (λ text. t)
        (λ _ _.
          let h = shrink-Good all kept trimmed.1 i t in
          and_then_lem P (shrink db r now current kept trimmed.1) _ (λ text. h)
            (λ _ _. closing-Good all (shrink db r now current kept trimmed.1).1 h))

  sessions-Good :
      (used : ℕ) (w : W) (answer : Result (List Session))
      → IfOk (λ all. Good all (prune_sessions db r now current used w answer).1) answer
  sessions-Good used w (err text) = tt
  sessions-Good used w (ok all) =
      let start = starting db r now current used w in
      let (g, i) = sweep-Swept all all start (λ x h. h) tt in
      after_sweep all (sweep db r now current all start) g i

  from-Good :
      (w : W) (size : Result ℕ)
      → IfOk (λ all. Good all (prune_from db r now current w size).1) (db.sessions_by_age w)
  from-Good w (ok used) = sessions-Good used w (db.sessions_by_age w)
  from-Good w (err text) = elim (Result-cases (db.sessions_by_age w)) [
    | inl (all, e) ↦ rw e tt
    | inr (text', e) ↦ rw e tt
  ]

  -- Whatever the database answers, every session that `prune` asks to delete is one that it listed,
  -- is not the one that is being recorded, nor open with activity in the last hour, and either its
  -- last activity is before the limit, the longer one if it has trades, or it has none and the
  -- database was over its size.
  pub prune-Spares :
      (w : W) (all : List Session)
      → db.sessions_by_age w ≡ ok all
      → All (Allowed all) (prune db r now current w).1.asked
  unfolding prune
  prune-Spares w all e =
      subst (λ x. IfOk (λ l. Good l (prune_from db r now current w (db.used_bytes w)).1) x) e
        (from-Good w (db.used_bytes w))
