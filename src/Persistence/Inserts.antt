-- ===== src/Persistence/Inserts.antt =====
-- A loop of insertions appends the rows if no primary key stands twice; a loop of decodings in
-- another order gives the same values in that order.
use preload_ng.Prelude.{
  ℕ, ◌+◌, ◌≡◌, refl, sym, ap, ◌∙◌, subst, false, List, [], ◌∷◌, ◌++◌, map, arith, length, All,
}
use preload_ng.Prelude.HashMap.{member}
use preload_ng.Prelude.Members.{NoRepeat, member-append}
use mathlib.Core.List.Permᴰ
use mathlib.Core.List.{Permᴰ, append_assoc, append-nil, map-append}
use preload_ng.Error.{Outcome, ok, ◌>>=◌}
use preload_ng.Floats.{Floats}
use preload_ng.Persistence.Tables.{Tables, Table, Sqlx, Transaction, execute, insert_row}
use preload_ng.Persistence.Rows.{Codec}
use preload_ng.Persistence.Repo.{insert_all, decode_all}

-- The rows are those of the records, one by one.
abbrev pub Each : {A Row : Type 0} → (A → Outcome Row) → List A → List Row → Type 0
Each f [] [] = Unit
Each f (a ∷ xs) (r ∷ rs) = (f a ≡ ok r) × Each f xs rs
Each f [] (r ∷ rs) = ⊥
Each f (a ∷ xs) [] = ⊥

pub Each-map : {A Row : Type 0} (f : A → Row) (xs : List A) → Each (λ a. ok (f a)) xs (map f xs)
Each-map f [] = tt
Each-map f (a ∷ xs) = (refl, Each-map f xs)

-- What a table gives back is what was put into it.
pub record TableLaws {F64 Row Key : Type 0} (table : Table F64 Row Key) : Type 0 where
  pub rows-with_rows : (t : Tables F64) (rs : List Row) → table.rows (table.with_rows t rs) ≡ rs
  pub with_rows-with_rows :
      (t : Tables F64) (rs ss : List Row)
      → table.with_rows (table.with_rows t rs) ss ≡ table.with_rows t ss
  pub with_rows-rows : (t : Tables F64) → table.with_rows t (table.rows t) ≡ t

NoRepeat-middle :
    {A : Type 0} (dec : Discrete A) (xs : List A) (a : A) (ys : List A)
    → NoRepeat dec (xs ++ a ∷ ys)
    → member dec xs a ≡ false
unfolding member
NoRepeat-middle dec [] a ys h = refl
NoRepeat-middle dec (x ∷ xs) a ys (first, h) =
    ground (arith, first, NoRepeat-middle dec xs a ys h, member-append dec xs (a ∷ ys) x)

module _ {fl : Floats} (codec : Codec fl) (sql : Sqlx) (never : (n : ℕ) → sql.fails n ≡ false) where
  open codec use {F64}

  pub execute-ok :
      (f : Tables F64 → Outcome (Tables F64)) (tx : Transaction F64)
      → execute sql f tx
        ≡ (f tx.tables >>= λ tables. ok (record { tables = tables; executed = tx.executed + 1 }))
  unfolding execute
  execute-ok f tx = rw (never tx.executed) refl

  module _ {A Row Key : Type 0} (table : Table F64 Row Key) (laws : TableLaws table)
      (row_of : A → Outcome Row) where
    pub insert_all_lem :
        (xs : List A) (rs : List Row) (tx : Transaction F64)
        → Each row_of xs rs
        → NoRepeat table.same_key (map table.key_of (table.rows tx.tables ++ rs))
        → insert_all codec sql table row_of xs tx
          ≡ ok (record {
            tables = table.with_rows tx.tables (table.rows tx.tables ++ rs);
            executed = tx.executed + length xs;
          })
    unfolding insert_all insert_row
    insert_all_lem [] [] tx e once =
        rw (append-nil (table.rows tx.tables), laws.with_rows-rows tx.tables)
          (ap (λ n. ok (record { tables = tx.tables; executed = n })) (omega arith))
    insert_all_lem (a ∷ xs) (r ∷ rs) tx (made, e) once =
        let t = tx.tables in
        let before = table.rows t in
        let fresh : member table.same_key (map table.key_of before) (table.key_of r) ≡ false =
          NoRepeat-middle table.same_key (map table.key_of before) (table.key_of r)
            (map table.key_of rs)
            (subst (NoRepeat table.same_key) (map-append table.key_of before (r ∷ rs)) once) in
        let tx' : Transaction F64 = record {
          tables = table.with_rows t (before ++ r ∷ []);
          executed = tx.executed + 1;
        } in
        let inserted : execute sql (insert_row table r) tx ≡ ok tx' =
          execute-ok (insert_row table r) tx ∙ rw fresh refl in
        let all : table.rows tx'.tables ++ rs ≡ before ++ r ∷ rs =
          rw (laws.rows-with_rows t (before ++ r ∷ []), append_assoc before (r ∷ []) rs) refl in
        let rest =
          insert_all_lem xs rs tx' e
            (subst (λ rows. NoRepeat table.same_key (map table.key_of rows)) (sym all) once) in
        rw
          (
            made,
            inserted,
            rest,
            all,
            laws.with_rows-with_rows t (before ++ r ∷ []) (before ++ r ∷ rs),
          )
          (ap (λ n. ok (record { tables = table.with_rows t (before ++ r ∷ rs); executed = n }))
            (omega arith))
    insert_all_lem [] (r ∷ rs) tx e once = elim e [ ]
    insert_all_lem (a ∷ xs) [] tx e once = elim e [ ]

pub decode_all-Each :
    {A B : Type 0} (f : A → Outcome B) (xs : List A) (bs : List B)
    → Each f xs bs
    → decode_all f xs ≡ ok bs
unfolding decode_all
decode_all-Each f [] [] e = refl
decode_all-Each f (a ∷ xs) (b ∷ bs) (made, e) = rw (made, decode_all-Each f xs bs e) refl
decode_all-Each f [] (b ∷ bs) e = elim e [ ]
decode_all-Each f (a ∷ xs) [] e = elim e [ ]

pub Each-Permᴰ :
    {A B : Type 0} (f : A → Outcome B) {xs ys : List A}
    → Permᴰ ys xs
    → (bs : List B) → Each f xs bs
    → (cs : List B) × Each f ys cs × Permᴰ cs bs
Each-Permᴰ f Permᴰ.nil bs h = (bs, h, Permᴰ.refl bs)
Each-Permᴰ f (Permᴰ.cons e p) [] h = elim h [ ]
Each-Permᴰ f (Permᴰ.cons e p) (b ∷ bs) (made, h) =
    let (cs, each, perm) = Each-Permᴰ f p bs h in (b ∷ cs, (rw e made, each), Permᴰ.cons refl perm)
Each-Permᴰ f (Permᴰ.swap e e') [] h = elim h [ ]
Each-Permᴰ f (Permᴰ.swap e e') (b ∷ []) (_, h) = elim h [ ]
Each-Permᴰ f (Permᴰ.swap e e') (b ∷ c ∷ bs) (made, (made', h)) =
    (c ∷ b ∷ bs, (rw e made', (rw e' made, h)), Permᴰ.swap refl refl)
Each-Permᴰ f (Permᴰ.trans p q) bs h =
    let (cs, each, perm) = Each-Permᴰ f q bs h in
    let (ds, each', perm') = Each-Permᴰ f p cs each in (ds, each', Permᴰ.trans perm' perm)

-- Rows that a second function turns back into their records.
pub Each-back :
    {A R : Type 0} (f : A → Outcome R) (g : R → Outcome A) (P : A → Type 0)
    → ((a : A) (r : R) → P a → f a ≡ ok r → g r ≡ ok a)
    → (xs : List A) (rs : List R) → All P xs
    → Each f xs rs
    → Each g rs xs
Each-back f g P back [] [] h e = tt
Each-back f g P back (a ∷ xs) (r ∷ rs) (p, h) (made, e) =
    (back a r p made, Each-back f g P back xs rs h e)
Each-back f g P back [] (r ∷ rs) h e = elim e [ ]
Each-back f g P back (a ∷ xs) [] h e = elim e [ ]
