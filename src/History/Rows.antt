-- ===== src/History/Rows.antt =====
-- The tables of the history stay consistent over any events (call-event-subscriber.ts).
use iziphone.Prelude.{
  ℕ, suc, ◌≡◌, refl, sym, ap, ◌∙◌, Bool, true, false, ◌&&◌, Option, none, some, List, [], ◌∷◌, ◌++◌,
  ◌==◌, ltb, elem, elem-append, Distinct, arith,
}
use mathlib.Core.Path.{subst}
use iziphone.Domain.{Text}
use iziphone.History.{
  CallRow, History, TimelineEntry, Change, find_call, update_row, in_row, upsert_found, with_found,
}
use iziphone.History.Handlers.{rename}

abbrev pub ids : List CallRow → List ℕ
ids [] = []
ids (row ∷ rows) = row.id ∷ ids rows

abbrev pub conversations : List CallRow → List Text
conversations [] = []
conversations (row ∷ rows) = row.conversation_uuid ∷ conversations rows

-- Every id is below `n`.
abbrev pub below : ℕ → List ℕ → Bool
below n [] = true
below n (i ∷ is) = ltb i n && below n is

-- Every entry is of a row.
abbrev pub of_rows : List ℕ → List TimelineEntry → Bool
of_rows is [] = true
of_rows is (entry ∷ entries) = elem entry.call_id is && of_rows is entries

-- A conversation has one row, an id is given once, and the timeline is of rows there are.
pub record IsConsistent (h : History) : Type 0 where
  pub one_row_each : Distinct (conversations h.rows)
  pub one_id_each : Distinct (ids h.rows)
  pub ids_given : below h.next_id (ids h.rows) ≡ true
  pub entries_of_rows : of_rows (ids h.rows) h.timeline ≡ true

ids-append :
    (rows : List CallRow) (row : CallRow) → ids (rows ++ (row ∷ [])) ≡ ids rows ++ (row.id ∷ [])
ids-append [] row = refl
ids-append (r ∷ rows) row = ap (λ is. r.id ∷ is) (ids-append rows row)

conversations-append :
    (rows : List CallRow) (row : CallRow)
    → conversations (rows ++ (row ∷ [])) ≡ conversations rows ++ (row.conversation_uuid ∷ [])
conversations-append [] row = refl
conversations-append (r ∷ rows) row =
    ap (λ cs. r.conversation_uuid ∷ cs) (conversations-append rows row)

module _ (f : CallRow → CallRow) (i : ℕ) where
  ids-update_row :
      ((row : CallRow) → (f row).id ≡ row.id)
      → (rows : List CallRow) → ids (update_row i f rows) ≡ ids rows
  ids-update_row same [] = refl
  ids-update_row same (row ∷ rows) = ground (arith, same row, ids-update_row same rows)

  conversations-update_row :
      ((row : CallRow) → (f row).conversation_uuid ≡ row.conversation_uuid)
      → (rows : List CallRow) → conversations (update_row i f rows) ≡ conversations rows
  conversations-update_row same [] = refl
  conversations-update_row same (row ∷ rows) =
      ground (arith, same row, conversations-update_row same rows)

elem-below : (n : ℕ) (is : List ℕ) → below n is ≡ true → elem n is ≡ false
elem-below n [] h = refl
elem-below n (i ∷ is) h = ground (arith, elem-below n is)

below-suc : (n : ℕ) (is : List ℕ) → below n is ≡ true → below (suc n) (is ++ (n ∷ [])) ≡ true
below-suc n [] h = ground arith
below-suc n (i ∷ is) h = ground (arith, below-suc n is)

Distinct-append :
    (x : ℕ) (xs : List ℕ) → Distinct xs → elem x xs ≡ false → Distinct (xs ++ (x ∷ []))
Distinct-append x [] d h = (refl, tt)
Distinct-append x (y ∷ xs) (n, d) h =
    (elem-append y xs (x ∷ []) ∙ ground arith, Distinct-append x xs d (ground arith))

of_rows-append :
    (is js : List ℕ) (es : List TimelineEntry) → of_rows is es ≡ true → of_rows (is ++ js) es ≡ true
of_rows-append is js [] h = refl
of_rows-append is js (e ∷ es) h =
    ground (arith, of_rows-append is js es, elem-append e.call_id is js)

pub of_rows-snoc :
    (is : List ℕ) (es : List TimelineEntry) (e : TimelineEntry)
    → of_rows is es ≡ true
    → elem e.call_id is ≡ true
    → of_rows is (es ++ (e ∷ [])) ≡ true
of_rows-snoc is [] e h k = ground arith
of_rows-snoc is (d ∷ es) e h k = ground (arith, of_rows-snoc is es e)

pub find_call-none :
    (c : Text) (rows : List CallRow) → find_call c rows ≡ none → elem c (conversations rows) ≡ false
find_call-none c [] h = refl
find_call-none c (row ∷ rows) h = ground (arith, find_call-none c rows)

pub find_call-some :
    (c : Text) (rows : List CallRow) (row : CallRow)
    → find_call c rows ≡ some row
    → elem row.id (ids rows) ≡ true
find_call-some c [] row h = cc
find_call-some c (r ∷ rows) row h = ground (arith, find_call-some c rows row)

-- Renaming -------------------------------------------------------------------

module _ (p c : Text) where
  pub ids-rename : (rows : List CallRow) → ids (rename p c rows) ≡ ids rows
  ids-rename [] = refl
  ids-rename (row ∷ rows) = ground (arith, ids-rename rows)

  rename_absent :
      (rows : List CallRow)
      → elem p (conversations rows) ≡ false
      → conversations (rename p c rows) ≡ conversations rows
  rename_absent [] h = refl
  rename_absent (row ∷ rows) h = ground (arith, rename_absent rows)

  rename_other :
      (x : Text) (rows : List CallRow)
      → (x == c) ≡ false
      → elem x (conversations rows) ≡ false
      → elem x (conversations (rename p c rows)) ≡ false
  rename_other x [] n h = refl
  rename_other x (row ∷ rows) n h = ground (arith, rename_other x rows)

  pub Distinct-rename :
      (rows : List CallRow)
      → Distinct (conversations rows)
      → elem c (conversations rows) ≡ false
      → Distinct (conversations (rename p c rows))
  Distinct-rename [] d h = tt
  Distinct-rename (row ∷ rows) (n, d) h = (
    ground (arith, rename_absent rows, rename_other row.conversation_uuid rows),
    Distinct-rename rows d (ground arith),
  )

-- A step ---------------------------------------------------------------------

abbrev pub entry_known : List ℕ → Option TimelineEntry → Bool
entry_known is none = true
entry_known is (some entry) = elem entry.call_id is

pub record IsSound (c : Change) : Type 0 where
  pub after_consistent : IsConsistent c.after
  pub entry_of_row : entry_known (ids c.after.rows) c.entry ≡ true

-- An update of a row keeps what the row is known by.
pub record KeepsName (f : CallRow → CallRow) : Type 0 where
  pub same_id : (row : CallRow) → (f row).id ≡ row.id
  pub same_conversation : (row : CallRow) → (f row).conversation_uuid ≡ row.conversation_uuid

in_row-IsConsistent :
    (h : History) (i : ℕ) (f : CallRow → CallRow)
    → KeepsName f
    → IsConsistent h
    → IsConsistent (in_row h i f)
in_row-IsConsistent h i f k c =
    let e = sym (ids-update_row f i k.same_id h.rows) in
    record {
      one_row_each =
          subst Distinct (sym (conversations-update_row f i k.same_conversation h.rows))
            c.one_row_each;
      one_id_each = subst Distinct e c.one_id_each;
      ids_given = subst (λ is. below h.next_id is ≡ true) e c.ids_given;
      entries_of_rows = subst (λ is. of_rows is h.timeline ≡ true) e c.entries_of_rows;
    }

pub with_found-IsSound :
    (h : History) (c : Text) (f : CallRow → CallRow) (entry : ℕ → Option TimelineEntry)
    → KeepsName f
    → ((i : ℕ) (is : List ℕ) → elem i is ≡ true → entry_known is (entry i) ≡ true)
    → IsConsistent h
    → (found : Option CallRow) → find_call c h.rows ≡ found
    → IsSound (with_found h f entry found)
with_found-IsSound h c f entry k known con none e = record {
  after_consistent = con;
  entry_of_row = refl;
}
with_found-IsSound h c f entry k known con (some row) e = record {
  after_consistent = in_row-IsConsistent h row.id f k con;
  entry_of_row = known row.id _ (
      subst (λ is. elem row.id is ≡ true) (sym (ids-update_row f row.id k.same_id h.rows))
        (find_call-some c h.rows row e));
}

append-IsConsistent :
    (h : History) (row : CallRow)
    → row.id ≡ h.next_id
    → elem row.conversation_uuid (conversations h.rows) ≡ false
    → IsConsistent h
    → IsConsistent (record h { rows = h.rows ++ (row ∷ []); next_id = suc h.next_id })
append-IsConsistent h row same new c =
    let e = sym (ids-append h.rows row) in
    record {
      one_row_each =
          subst Distinct (sym (conversations-append h.rows row))
            (Distinct-append row.conversation_uuid (conversations h.rows) c.one_row_each new);
      one_id_each = subst Distinct e (
          Distinct-append row.id (ids h.rows) c.one_id_each (
            subst (λ i. elem i (ids h.rows) ≡ false) (sym same)
              (elem-below h.next_id (ids h.rows) c.ids_given)));
      ids_given =
          subst (λ is. below (suc h.next_id) is ≡ true) e
            (subst (λ i. below (suc h.next_id) (ids h.rows ++ (i ∷ [])) ≡ true) (sym same)
              (below-suc h.next_id (ids h.rows) c.ids_given));
      entries_of_rows =
          subst (λ is. of_rows is h.timeline ≡ true) e
            (of_rows-append (ids h.rows) (row.id ∷ []) h.timeline c.entries_of_rows);
    }

pub upsert_found-IsSound :
    (h : History) (c : Text) (create : ℕ → CallRow) (f : CallRow → CallRow)
    (entry : ℕ → TimelineEntry)
    → KeepsName f
    → ((i : ℕ) → (create i).id ≡ i)
    → ((i : ℕ) → (create i).conversation_uuid ≡ c)
    → ((i : ℕ) → (entry i).call_id ≡ i)
    → IsConsistent h
    → (found : Option CallRow) → find_call c h.rows ≡ found
    → IsSound (upsert_found h create f entry found)
upsert_found-IsSound h c create f entry k own_id own_conversation of_id con none e =
    let row = create h.next_id in
    record {
      after_consistent =
          append-IsConsistent h row (own_id h.next_id)
            (subst (λ x. elem x (conversations h.rows) ≡ false) (sym (own_conversation h.next_id))
              (find_call-none c h.rows e))
            con;
      entry_of_row =
          subst (λ is. elem (entry h.next_id).call_id is ≡ true) (sym (ids-append h.rows row))
            (elem-append (entry h.next_id).call_id (ids h.rows) (row.id ∷ [])
              ∙ ground (arith, own_id h.next_id, of_id h.next_id));
    }
upsert_found-IsSound h c create f entry k own_id own_conversation of_id con (some row) e = record {
  after_consistent = in_row-IsConsistent h row.id f k con;
  entry_of_row =
      subst (λ i. elem i (ids (update_row row.id f h.rows)) ≡ true) (sym (of_id row.id))
        (subst (λ is. elem row.id is ≡ true) (sym (ids-update_row f row.id k.same_id h.rows))
          (find_call-some c h.rows row e));
}
