-- ===== src/Migrations/Latest.antt =====
-- The journal's latest row of a version is the one that was recorded last, as long as the clock
-- that numbers the rows goes forward.
use bormo_stats.Base.{
  ℕ, ◌<◌, String, ◌≡◌, refl, ap, ◌∙◌, Bool, true, false, Option, some, List, [], ◌∷◌, ltb, str_eq,
  if◌then◌else◌, arith, All, eq_iff,
}
use bormo_stats.Base.Results.{Exec}
use bormo_stats.Migrations.Journal.{Migration, JournalRow, upsert, load_journal, get_entry}
use bormo_stats.Migrations.Runs.{Warehouse, insert_row}

-- All rows were numbered before this reading of the clock.
abbrev pub AllBefore : ℕ → List JournalRow → Type 0
AllBefore now = All λ r. r.seq < now

AllBefore-if :
    (now : ℕ) (b : Bool) (xs ys : List JournalRow)
    → AllBefore now xs
    → AllBefore now ys
    → AllBefore now (if b then xs else ys)
AllBefore-if now true xs ys h k = h
AllBefore-if now false xs ys h k = k

upsert-AllBefore :
    (now : ℕ) (r : JournalRow) (es : List JournalRow)
    → r.seq < now
    → AllBefore now es
    → AllBefore now (upsert r es)
unfolding upsert
upsert-AllBefore now r [] h k = (h, tt)
upsert-AllBefore now r (e ∷ es) h k =
    AllBefore-if now (str_eq r.version e.version) ((if ltb e.seq r.seq then r else e) ∷ es)
      (e ∷ upsert r es) (newer_before (ltb e.seq r.seq), k.1) (k.0, upsert-AllBefore now r es h k.1)
  where
    newer_before : (b : Bool) → (if b then r else e).seq < now
    newer_before true = h
    newer_before false = k.0

load_journal-AllBefore :
    (now : ℕ) (rows : List JournalRow) → AllBefore now rows → AllBefore now (load_journal rows)
unfolding load_journal
load_journal-AllBefore now [] h = tt
load_journal-AllBefore now (r ∷ rows) h =
    upsert-AllBefore now r (load_journal rows) h.0 (load_journal-AllBefore now rows h.1)

get_cons :
    (v : String) (e : JournalRow) (es : List JournalRow)
    → get_entry v (e ∷ es) ≡ (if str_eq v e.version then some e else get_entry v es)
unfolding get_entry
get_cons v e es = refl

upsert_cons :
    (r e : JournalRow) (es : List JournalRow)
    → e.seq < r.seq
    → upsert r (e ∷ es) ≡ (if str_eq r.version e.version then r ∷ es else e ∷ upsert r es)
unfolding upsert
upsert_cons r e es h = ground arith

get-upsert_step :
    (r e : JournalRow) (es : List JournalRow) (v : String)
    → get_entry v (upsert r es) ≡ (if str_eq v r.version then some r else get_entry v es)
    → get_entry v (if str_eq r.version e.version then r ∷ es else e ∷ upsert r es)
      ≡ (if str_eq v r.version then some r else get_entry v (e ∷ es))
get-upsert_step r e es v ih = ground (
  arith,
  ih,
  get_cons v e es,
  get_cons v r es,
  get_cons v e (upsert r es),
  eq_iff r.version e.version,
  eq_iff v e.version,
  eq_iff v r.version,
)

get-upsert :
    (r : JournalRow) (es : List JournalRow) (v : String)
    → AllBefore r.seq es
    → get_entry v (upsert r es) ≡ (if str_eq v r.version then some r else get_entry v es)
unfolding get_entry upsert
get-upsert r [] v h = refl
get-upsert r (e ∷ es) v h =
    ap (get_entry v) (upsert_cons r e es h.0) ∙ get-upsert_step r e es v (get-upsert r es v h.1)

pub later_rows : (a b : ℕ) (rows : List JournalRow) → a < b → AllBefore a rows → AllBefore b rows
later_rows a b [] h k = tt
later_rows a b (r ∷ rows) h k = (ground arith, later_rows a b rows h k.1)

module _ {D : Type 0} (command : List ℕ → Exec D String Unit)
    (missing_objects : Migration → D → Option String) (tick : ℕ → ℕ) (m : Migration)
    (status error : String) (w : Warehouse D) where
  abbrev pub recorded : JournalRow
  recorded = record {
    version = m.version;
    checksum = m.checksum;
    status = status;
    seq = w.now;
    error = error;
  }

  -- A recorded status is the journal's latest for its version; the other versions keep theirs.
  pub get-insert_row :
      (v : String)
      → AllBefore w.now w.journal
      → get_entry v
          (load_journal (insert_row command missing_objects tick m status error w).journal)
        ≡ (if str_eq v m.version then some recorded else get_entry v (load_journal w.journal))
  unfolding insert_row load_journal
  get-insert_row v h =
      get-upsert recorded (load_journal w.journal) v (load_journal-AllBefore w.now w.journal h)

  pub insert_row-AllBefore :
      ((n : ℕ) → n < tick n)
      → AllBefore w.now w.journal
      → AllBefore
          (insert_row command missing_objects tick m status error w).now
          (insert_row command missing_objects tick m status error w).journal
  unfolding insert_row
  insert_row-AllBefore forward h =
      (forward w.now, later_rows w.now (tick w.now) w.journal (forward w.now) h)
