-- ===== src/Driver/Report/Page.antt =====
-- kernel/trigger6_drv.c: which lines of the metrics stand in the page, and where the text stops.
use mathlib.Core.List.{append_assoc}
use jcd543_mct_t6_linux_driv.Prelude.{
  ℕ, ◌+◌, ◌-◌, ◌≤◌, ◌<◌, ◌≡◌, ◌⊎◌, inl, inr, refl, ap, ◌∙◌, arith, leb, true, false, Bool,
  if◌then◌else◌, Option, none, some, List, [], ◌∷◌, ◌++◌,
}
use jcd543_mct_t6_linux_driv.Driver.Device.{Device, Head, Params, get_head}
use jcd543_mct_t6_linux_driv.Driver.Report.{
  Format, Line, Report, BusName, state_line, queue_line, sent_line, waits_line, times_line,
  error_line, bus_line, bulk_line, put_line, unless_full, show_head, metrics_show,
}

-- The lines without their offsets.
abbrev pub texts : List (ℕ × Line) → List Line
texts [] = []
texts ((offset, line) ∷ lines) = line ∷ texts lines

texts-snoc :
    (lines : List (ℕ × Line)) (offset : ℕ) (line : Line)
    → texts (lines ++ (offset, line) ∷ []) ≡ texts lines ++ line ∷ []
texts-snoc [] offset line = refl
texts-snoc ((o, l) ∷ lines) offset line =
    ap (λ (ls : List Line). l ∷ ls) (texts-snoc lines offset line)

abbrev pub lines_of_head : Params → Head → List Line
lines_of_head params h =
    state_line params h
    ∷ queue_line h
    ∷ sent_line h
    ∷ waits_line h
    ∷ times_line h
    ∷ error_line h
    ∷ []

-- All the lines of the text: one without a device, and fourteen with one.
abbrev pub lines_of : Params → BusName → Option Device → List Line
lines_of params bus none = record { format = Format.no_device; values = [] } ∷ []
lines_of params bus (some t6) =
    bus_line bus t6
    ∷ bulk_line t6
    ∷ (lines_of_head params (get_head t6 0) ++ lines_of_head params (get_head t6 1))

-- The formats before which the text may stop.
abbrev pub opens_group : Format → Bool
opens_group Format.bulk_counts = true
opens_group Format.head_state = true
opens_group Format.head_waits = true
opens_group _ = false

-- Each group of lines starts with more than 256 bytes of the page left.
abbrev pub HaveRoom : ℕ → List (ℕ × Line) → Type 0
HaveRoom n [] = Unit
HaveRoom n ((offset, line) ∷ lines) =
    (opens_group line.format ≡ true → offset + 256 < n) × HaveRoom n lines

HaveRoom-snoc :
    (n : ℕ) (lines : List (ℕ × Line)) (offset : ℕ) (line : Line)
    → HaveRoom n lines
    → (opens_group line.format ≡ true → offset + 256 < n)
    → HaveRoom n (lines ++ (offset, line) ∷ [])
HaveRoom-snoc n [] offset line h l = (l, tt)
HaveRoom-snoc n ((o, x) ∷ lines) offset line h l = (h.0, HaveRoom-snoc n lines offset line h.1 l)

-- The text has the first of these lines, in order; it lacks some only if at most 256 bytes of the page are left.
pub record IsText (n : ℕ) (lines : List Line) (r : Report) : Type 0 where
  pub rest : List Line
  pub in_order : texts r.lines ++ rest ≡ lines
  pub complete : (rest ≡ []) ⊎ (n ≤ r.len + 256)
  pub room : HaveRoom n r.lines

module _ (emit : ℕ → Line → ℕ) (page_size : ℕ) where
  -- What goes on with these lines, behind any others.
  abbrev Shows : List Line → (Report → Report) → Type 0
  Shows todo next =
      (r : Report) → HaveRoom page_size r.lines → IsText page_size (texts r.lines ++ todo) (next r)

  -- The same where a group may start.
  abbrev ShowsGroup : List Line → (Report → Report) → Type 0
  ShowsGroup todo next =
      (r : Report)
      → HaveRoom page_size r.lines
      → r.len + 256 < page_size
      → IsText page_size (texts r.lines ++ todo) (next r)

  end-Shows : Shows [] (λ r. r)
  end-Shows r h = record { rest = []; in_order = refl; complete = inl refl; room = h }

  unless_full-Shows :
      (todo : List Line) (next : Report → Report)
      → ShowsGroup todo next
      → Shows todo (unless_full emit page_size next)
  unfolding unless_full
  unless_full-Shows todo next k r h =
      by_cases (leb (page_size - 256) r.len) (λ e. ground arith) (λ e. ground arith)
    where
      by_cases :
          (b : Bool)
          → (b ≡ true → page_size ≤ r.len + 256)
          → (b ≡ false → r.len + 256 < page_size)
          → IsText page_size (texts r.lines ++ todo) (if b then r else next r)
      by_cases true full more = record {
        rest = todo;
        in_order = refl;
        complete = inr (full refl);
        room = h;
      }
      by_cases false full more = k r h (more refl)

  put_line_lem :
      (line : Line) (todo : List Line) (next : Report → Report) (r : Report)
      → Shows todo next
      → HaveRoom page_size r.lines
      → (opens_group line.format ≡ true → r.len + 256 < page_size)
      → IsText page_size (texts r.lines ++ line ∷ todo) (next (put_line emit page_size line r))
  unfolding put_line
  put_line_lem line todo next r k h room =
      let put : Report = put_line emit page_size line r in
      let t : IsText page_size (texts put.lines ++ todo) (next put) =
        k put (HaveRoom-snoc page_size r.lines r.len line h room) in
      let moved : texts put.lines ++ todo ≡ texts r.lines ++ line ∷ todo =
        ap (λ (ls : List Line). ls ++ todo) (texts-snoc r.lines r.len line)
        ∙ append_assoc (texts r.lines) (line ∷ []) todo in
      record { rest = t.rest; in_order = t.in_order ∙ moved; complete = t.complete; room = t.room }

  -- A line within a group.
  line-Shows :
      (line : Line) (todo : List Line) (next : Report → Report)
      → opens_group line.format ≡ false
      → Shows todo next
      → Shows (line ∷ todo) (λ r. next (put_line emit page_size line r))
  line-Shows line todo next inner k r h =
      put_line_lem line todo next r k h (λ e. absurd (cc (e, inner)))

  -- The first line of a group.
  first-ShowsGroup :
      (line : Line) (todo : List Line) (next : Report → Report)
      → Shows todo next
      → ShowsGroup (line ∷ todo) (λ r. next (put_line emit page_size line r))
  first-ShowsGroup line todo next k r h room = put_line_lem line todo next r k h (λ e. room)

  show_head-Shows :
      (params : Params) (h : Head) (todo : List Line) (next : Report → Report)
      → Shows todo next
      → Shows (lines_of_head params h ++ todo) (show_head emit page_size params h next)
  unfolding show_head queue_line sent_line times_line error_line
  show_head-Shows params h todo next k =
      let error = line-Shows (error_line h) todo next refl k in
      let times = line-Shows (times_line h) (error_line h ∷ todo) _ refl error in
      let waits =
        unless_full-Shows (waits_line h ∷ times_line h ∷ error_line h ∷ todo) _
          (first-ShowsGroup (waits_line h) (times_line h ∷ error_line h ∷ todo) _ times) in
      let second = waits_line h ∷ times_line h ∷ error_line h ∷ todo in
      let sent = line-Shows (sent_line h) second _ refl waits in
      let queue = line-Shows (queue_line h) (sent_line h ∷ second) _ refl sent in
      unless_full-Shows (state_line params h ∷ queue_line h ∷ sent_line h ∷ second) _
        (first-ShowsGroup (state_line params h) (queue_line h ∷ sent_line h ∷ second) _ queue)

-- Whatever sysfs_emit_at returns, the metrics are the first of their fourteen lines, or the one line without a device, in
-- order. Lines are missing at the end only if at most 256 bytes of the page are left, and the line of the bulk writes and the
-- two groups of lines of each head start where more than 256 bytes are left.
pub metrics_show-IsText :
    (emit : ℕ → Line → ℕ) (page_size : ℕ) (params : Params) (bus : BusName) (t6 : Option Device)
    → IsText page_size (lines_of params bus t6) (metrics_show emit page_size params bus t6)
unfolding metrics_show bus_line
metrics_show-IsText emit page_size params bus none =
    line-Shows emit page_size (record { format = Format.no_device; values = [] }) [] (λ r. r) refl
      (end-Shows emit page_size) (record { lines = []; len = 0 }) tt
metrics_show-IsText emit page_size params bus (some t6) =
    let heads = lines_of_head params (get_head t6 0) ++ lines_of_head params (get_head t6 1) in
    let second =
      show_head-Shows emit page_size params (get_head t6 1) [] (λ s. s)
        (end-Shows emit page_size) in
    let both =
      show_head-Shows emit page_size params (get_head t6 0) (lines_of_head params (get_head t6 1)) _
        second in
    let counts =
      unless_full-Shows emit page_size (bulk_line t6 ∷ heads) _
        (first-ShowsGroup emit page_size (bulk_line t6) heads _ both) in
    line-Shows emit page_size (bus_line bus t6) (bulk_line t6 ∷ heads) _ refl counts
      (record { lines = []; len = 0 }) tt
