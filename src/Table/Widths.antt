-- ===== src/Table/Widths.antt =====
-- core/print_data.go, `writeTable`: the column widths.
use truenas_incus_ctl.Base.{
  ℕ, zero, suc, ◌+◌, ◌*◌, ◌≤◌, ◌<◌, ◌≡◌, refl, sym, ap, ◌∙◌, List, [], ◌∷◌, some, arith, Str,
  length, get_elem?,
}
use truenas_incus_ctl.Table.Write.{max_of, widen_row, widen}

-- The cells from `idx` on fit into the widths.
abbrev pub Fits : List Str → ℕ → List ℕ → Type 0
Fits all idx [] = Unit
Fits all idx (w ∷ ws) =
    ((s : Str) × (get_elem? all idx ≡ some s) × (length s ≤ w)) × Fits all (suc idx) ws

abbrev pub Wider : List ℕ → List ℕ → Type 0
Wider [] [] = Unit
Wider (u ∷ us) (v ∷ vs) = (u ≤ v) × Wider us vs
Wider _ _ = ⊥

get_elem?-in : (all : List Str) (i : ℕ) → i < length all → (s : Str) × (get_elem? all i ≡ some s)
get_elem?-in [] i h = absurd (omega arith)
get_elem?-in (s ∷ all) zero h = (s, refl)
get_elem?-in (s ∷ all) (suc i) h = get_elem?-in all i (omega arith)

Wider-refl : (ws : List ℕ) → Wider ws ws
Wider-refl [] = tt
Wider-refl (w ∷ ws) = (omega arith, Wider-refl ws)

Wider-trans : (us vs ws : List ℕ) → Wider us vs → Wider vs ws → Wider us ws
Wider-trans [] [] [] a b = tt
Wider-trans (u ∷ us) (v ∷ vs) (w ∷ ws) a b = (omega (arith, a.0, b.0), Wider-trans us vs ws a.1 b.1)
Wider-trans [] (v ∷ vs) ws a b = absurd a
Wider-trans (u ∷ us) [] ws a b = absurd a
Wider-trans (u ∷ us) (v ∷ vs) [] a b = absurd b
Wider-trans [] [] (w ∷ ws) a b = absurd b

pub Wider-length : (us vs : List ℕ) → Wider us vs → length us ≡ length vs
Wider-length [] [] a = refl
Wider-length (u ∷ us) (v ∷ vs) a = ap suc (Wider-length us vs a.1)
Wider-length [] (v ∷ vs) a = absurd a
Wider-length (u ∷ us) [] a = absurd a

Fits-Wider :
    (all : List Str) (idx : ℕ) (us vs : List ℕ) → Wider us vs → Fits all idx us → Fits all idx vs
Fits-Wider all idx [] [] a f = tt
Fits-Wider all idx (u ∷ us) (v ∷ vs) a f =
    let (s, at, le) = f.0 in
    ((s, at, omega (arith, a.0, le)), Fits-Wider all (suc idx) us vs a.1 f.1)
Fits-Wider all idx [] (v ∷ vs) a f = absurd a
Fits-Wider all idx (u ∷ us) [] a f = absurd a

pub record Widened (all : List Str) (idx : ℕ) (us : List ℕ) : Type 0 where
  pub widths : List ℕ
  pub given : widen_row all idx us ≡ some widths
  pub fits : Fits all idx widths
  pub wider : Wider us widths

pub max_of-le : (a b : ℕ) → (a ≤ max_of a b) × (b ≤ max_of a b)
max_of-le a b = (ground arith, ground arith)

widen_row-Widened :
    (all : List Str) (idx : ℕ) (us : List ℕ) → idx + length us ≤ length all → Widened all idx us
unfolding widen_row
widen_row-Widened all idx [] h = record { widths = []; given = refl; fits = tt; wider = tt }
widen_row-Widened all idx (u ∷ us) h =
    let (s, at) = get_elem?-in all idx (omega arith) in
    let w = widen_row-Widened all (suc idx) us (omega arith) in
    let (a, b) = max_of-le u (length s) in
    record {
      widths = max_of u (length s) ∷ w.widths;
      given = rw (at, w.given) refl;
      fits = ((s, at, b), w.fits);
      wider = (a, w.wider);
    }

-- The rows that the loop has widened for.
abbrev pub RowsFit : List Str → ℕ → ℕ → List ℕ → Type 0
RowsFit all zero idx ws = Unit
RowsFit all (suc rows) idx ws = Fits all idx ws × RowsFit all rows (idx + length ws) ws

pub record AllWidened (all : List Str) (n rows idx : ℕ) (us : List ℕ) : Type 0 where
  pub widths : List ℕ
  pub given : widen all n rows idx us ≡ some widths
  pub fit : RowsFit all rows idx widths
  pub wider : Wider us widths

pub widen-AllWidened :
    (all : List Str) (n rows idx : ℕ) (us : List ℕ)
    → length us ≡ n
    → idx + rows * n ≤ length all
    → AllWidened all n rows idx us
unfolding widen
widen-AllWidened all n zero idx us e h = record {
  widths = us;
  given = refl;
  fit = tt;
  wider = Wider-refl us;
}
widen-AllWidened all n (suc rows) idx us e h =
    let row = widen_row-Widened all idx us (omega (arith, e, h)) in
    let same = Wider-length us row.widths row.wider in
    let rest = widen-AllWidened all n rows (idx + n) row.widths (sym same ∙ e) (omega (arith, h)) in
    let len = Wider-length row.widths rest.widths rest.wider in
    let step : length rest.widths ≡ n = omega (arith, len, same, e) in
    record {
      widths = rest.widths;
      given = rw row.given rest.given;
      fit = (Fits-Wider all idx row.widths rest.widths rest.wider row.fits, rw step rest.fit);
      wider = Wider-trans us row.widths rest.widths row.wider rest.wider;
    }
