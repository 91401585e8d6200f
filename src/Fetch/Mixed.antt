-- ===== src/Fetch/Mixed.antt =====
-- The calls that fetch in OdbcStatement.cpp, in any order, on a cursor that goes forward.
use firebird_odbc_driver.Base.{
  ℕ, ◌≡◌, arith, refl, ap, ◌∙◌, inl, inr, Bool, true, false, not, ◌&&◌, List, [], ◌∷◌, ◌++◌,
  append_assoc, if◌then◌else◌, Bool-cases,
}
use firebird_odbc_driver.Base.Int.{ℤ, pos}
use firebird_odbc_driver.Fetch.{
  Reader, FetchType, plain_fetch, extended_fetch, scroll_fetch, Statement, Application, Reply,
  refused, static_rows, forward_rows, copy_fetched, fetch_data, begin_fetch, fetch_rows, sql_fetch,
  sql_fetch_scroll, sql_extended_fetch, is_next, settings_of, first_offset, is_none_fetch,
  is_static_cursor,
}
use firebird_odbc_driver.Fetch.Rowset.{somes, rows_of, copy_fetched-rows}
use firebird_odbc_driver.Scroll.{Settings, Orientation, sql_fetch_next}

pub data Call : Type 0 where
  fetch : Call
  scroll : Orientation → ℤ → Call
  extended : Orientation → ℤ → Call

abbrev pub answer : Application → Statement → Call → Statement × Reply
answer a st fetch = sql_fetch a st
answer a st (scroll orientation offset) = sql_fetch_scroll a st orientation offset
answer a st (extended orientation offset) = sql_extended_fetch a st orientation offset

-- The rows that a call puts into the application's buffers.
abbrev pub stored_of : Reply → List ℕ
stored_of (refused refusal) = []
stored_of (static_rows o) = o.rows
stored_of (forward_rows page) = rows_of page.stored

-- The rows of the calls together, and the statement behind them.
unfoldable pub answer_all : Application → Statement → List Call → List ℕ × Statement
answer_all a st [] = ([], st)
answer_all a st (call ∷ calls) =
    let (st', reply) = answer a st call in
    let (rows, end) = answer_all a st' calls in (stored_of reply ++ rows, end)

-- An open forward cursor that nobody has cancelled.
abbrev pub IsForward : Statement → Type 0
IsForward st =
    (is_static_cursor st ≡ false) × (st.is_fetch_static_cursor ≡ false) × (st.cancel ≡ false)

-- What a call gives and leaves are the rows that were there.
abbrev Keeps : Statement → Statement × Reply → Type 0
Keeps st (st', reply) =
    IsForward st' × (stored_of reply ++ somes st'.reader.pending ≡ somes st.reader.pending)

fetch_data-rows :
    (s : Settings) (step offset : ℕ) (eof : Bool) (r : Reader)
    → s.fetch_ret_data ≡ true
    → let page = fetch_data s step offset eof r in
      rows_of page.stored ++ somes page.reader.pending ≡ somes r.pending
unfolding fetch_data rows_of
fetch_data-rows s step offset true r on = refl
fetch_data-rows s step offset false r on =
    let c = copy_fetched s.rowset_size s.max_rows 0 step offset r.pending in
    let rows = copy_fetched-rows s.rowset_size s.max_rows 0 step offset r.pending in
    elim (Bool-cases c.failed) [ inl failed ↦ rw (failed, on) rows | inr went ↦ rw (went, on) rows ]

fetch_rows-Keeps :
    (a : Application) (st : Statement) (orientation : Orientation) (offset : ℤ)
    → a.settings.fetch_ret_data ≡ true
    → IsForward st
    → Keeps st (fetch_rows a st orientation offset)
unfolding fetch_rows
fetch_rows-Keeps a st orientation offset on (kind, fixed, open_) = rw fixed (
  (kind, refl, open_),
  fetch_data-rows (settings_of a st) (if st.schema_fetch_data then a.bind_type else 1)
      (first_offset a.bind_offset) st.cursor.eof st.reader on,
)

begin_fetch-IsForward :
    (kind : FetchType) (a : Application) (st : Statement)
    → IsForward st
    → IsForward (begin_fetch kind a st) × ((begin_fetch kind a st).reader ≡ st.reader)
unfolding begin_fetch
begin_fetch-IsForward kind a st (type_, fixed, open_) =
    elim (Bool-cases (is_none_fetch st.en_fetch)) [
      | inl new ↦ rw new ((type_, type_, open_), refl)
      | inr old ↦ rw old ((type_, fixed, open_), refl)
    ]

either-Keeps :
    (st : Statement) (b : Bool) (x y : Statement × Reply)
    → (b ≡ true → Keeps st x)
    → (b ≡ false → Keeps st y)
    → Keeps st (if b then x else y)
either-Keeps st true x y kept other = kept refl
either-Keeps st false x y kept other = other refl

begun-Keeps :
    (kind : FetchType) (a : Application) (st : Statement) (orientation : Orientation) (offset : ℤ)
    → a.settings.fetch_ret_data ≡ true
    → IsForward st
    → Keeps st (fetch_rows a (begin_fetch kind a st) orientation offset)
begun-Keeps kind a st orientation offset on h =
    let begun = begin_fetch kind a st in
    let (forward, same) = begin_fetch-IsForward kind a st h in
    let (kept, rows) = fetch_rows-Keeps a begun orientation offset on forward in
    (kept, rows ∙ ap (λ (r : Reader). somes r.pending) same)

answer-Keeps :
    (a : Application) (st : Statement) (call : Call)
    → a.settings.fetch_ret_data ≡ true
    → IsForward st
    → Keeps st (answer a st call)
unfolding sql_fetch sql_fetch_scroll sql_extended_fetch
answer-Keeps a st fetch on h =
    either-Keeps st (not st.has_result_set) _ _ (λ closed. (h, refl))
      (λ opened.
        either-Keeps st st.cancel _ _ (λ canceled. absurd (ground arith))
          (λ goes_on. begun-Keeps plain_fetch a st sql_fetch_next (pos 1) on h))
answer-Keeps a st (scroll orientation offset) on h =
    let begun = begin_fetch scroll_fetch a st in
    let (forward, same) = begin_fetch-IsForward scroll_fetch a st h in
    either-Keeps st (not st.has_result_set) _ _ (λ closed. (h, refl))
      (λ opened.
        either-Keeps st (begun.forward_only && not (is_next orientation)) _ _
          (λ refuses. (forward, ap (λ (r : Reader). somes r.pending) same))
          (λ next.
            either-Keeps st begun.cancel _ _ (λ canceled. absurd (ground arith))
              (λ goes_on. begun-Keeps scroll_fetch a st orientation offset on h)))
answer-Keeps a st (extended orientation offset) on h =
    either-Keeps st (not st.has_result_set) _ _ (λ closed. (h, refl))
      (λ opened.
        either-Keeps st st.cancel _ _ (λ canceled. absurd (ground arith))
          (λ goes_on.
            either-Keeps st (st.forward_only && not (is_next orientation)) _ _
              (λ refuses. (h, refl))
              (λ next. begun-Keeps extended_fetch a st orientation offset on h)))

-- However SQLFetch, SQLFetchScroll and SQLExtendedFetch follow each other on a forward cursor that nobody
-- cancels, whatever orientations they ask for and however often the database throws: the rows they put into
-- the buffers, in order, and those the result set has left are the rows it had, none lost and none
-- repeated, when the rows are wanted.
pub answer_all-rows :
    (a : Application) (st : Statement) (calls : List Call)
    → a.settings.fetch_ret_data ≡ true
    → IsForward st
    → let (rows, end) = answer_all a st calls in
      rows ++ somes end.reader.pending ≡ somes st.reader.pending
unfolding answer_all
answer_all-rows a st [] on h = refl
answer_all-rows a st (call ∷ calls) on h =
    let (st', reply) = answer a st call in
    let (forward, kept) = answer-Keeps a st call on h in
    let (rows, end) = answer_all a st' calls in
    append_assoc (stored_of reply) rows (somes end.reader.pending)
    ∙ ap (λ rest. stored_of reply ++ rest) (answer_all-rows a st' calls on forward)
    ∙ kept
