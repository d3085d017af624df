-- ===== src/Log/Ring.antt =====
-- The ring holds the last 128 messages, oldest first.
use hypnos.Base.{
  false, lt→ltb, ◌∙◌, length-append, ℕ, zero, suc, ◌+◌, ◌-◌, ◌%◌, ◌<◌, ◌≤◌, ◌≡◌, ◌≢◌, refl, ap,
  Option, none, some, List, [], ◌∷◌, ◌++◌, arith, ltb, get_or, set, length, take, drop, length-set,
  get_or-set_self, get_or-set_ne,
}
use mathlib.Core.Path.{ap₂}
use native.Mathlib.Decide.{dec_lt}
use hypnos.CStr.{CString}
use hypnos.Log.{
  Log, log_max_lines, log_line_len, copy_bytes, l_strncpy, log_event, dump_from, log_dump,
}

pub record IsLog (l : Log) : Type 0 where
  pub lines : length l.log_buf ≡ log_max_lines
  pub head_in : l.log_head < log_max_lines
  pub count_in : l.log_count ≤ log_max_lines

copy_bytes-take : (src : CString) (room : ℕ) → copy_bytes src room ≡ take room src
unfolding copy_bytes
copy_bytes-take src zero = refl
copy_bytes-take [] (suc room) = refl
copy_bytes-take (c ∷ src) (suc room) = ap (λ t. c ∷ t) (copy_bytes-take src room)

-- The line that is kept of a message.
pub l_strncpy-take : (msg : CString) → l_strncpy msg log_line_len ≡ take 79 msg
unfolding l_strncpy
l_strncpy-take msg = copy_bytes-take msg 79

-- Every event, also one without a message, keeps the bounds of the log: 128 lines, a next line that is
-- one of them, and at most 128 lines counted.
log_event-IsLog : (msg : Option CString) (l : Log) → IsLog l → IsLog (log_event msg l)
unfolding log_event
log_event-IsLog none l v = v
log_event-IsLog (some msg) l v = record {
  lines = length-set l.log_buf l.log_head (l_strncpy msg log_line_len) ∙ v.lines;
  head_in = omega arith;
  count_in = ground (arith, v.count_in);
}

-- The window does not see a write behind its end.
dump_from-set :
    (buf : List CString) (v : CString) (start i rounds h : ℕ)
    → i + rounds ≤ 127
    → h ≡ (start + (i + rounds)) % log_max_lines
    → length buf ≡ log_max_lines
    → dump_from (set buf h v) start i (suc rounds) ≡ dump_from buf start i rounds ++ (v ∷ [])
unfolding dump_from
dump_from-set buf v start i zero h le e len =
    let at : (start + i) % log_max_lines ≡ h = omega arith in
    rw (at, get_or-set_self buf h v [] (omega arith))
dump_from-set buf v start i (suc r) h le e len =
    let ne : h ≢ (start + i) % log_max_lines = omega arith in
    ap₂ ◌∷◌ (get_or-set_ne buf h ((start + i) % log_max_lines) v [] ne)
      (dump_from-set buf v start (i + 1) r h (omega arith) (omega arith) len)

-- Moving the start instead of the index changes nothing.
dump_from_shift :
    (buf : List CString) (a b i j rounds : ℕ)
    → (a + i) % log_max_lines ≡ (b + j) % log_max_lines
    → dump_from buf a i rounds ≡ dump_from buf b j rounds
unfolding dump_from
dump_from_shift buf a b i j zero e = refl
dump_from_shift buf a b i j (suc r) e =
    ap₂ ◌∷◌ (ap (λ k. get_or buf k []) e) (dump_from_shift buf a b (i + 1) (j + 1) r (omega arith))

length-dump_from :
    (buf : List CString) (a i rounds : ℕ) → length (dump_from buf a i rounds) ≡ rounds
unfolding dump_from
length-dump_from buf a i zero = refl
length-dump_from buf a i (suc r) = ap suc (length-dump_from buf a (i + 1) r)

-- The lines kept of a sequence: the last 128.
abbrev pub last_lines : List CString → List CString
last_lines xs = drop (length xs - log_max_lines) xs

dump_from-suc :
    (buf : List CString) (a k m : ℕ)
    → m ≡ suc k
    → dump_from buf a 0 m ≡ get_or buf ((a + 0) % log_max_lines) [] ∷ dump_from buf a 1 k
unfolding dump_from
dump_from-suc buf a k m e = rw e

module _ (buf : List CString) (w : CString) (h : ℕ) (len : length buf ≡ log_max_lines)
    (head_in : h < log_max_lines) where
  event_room :
      (n m : ℕ)
      → n < log_max_lines
      → m ≡ suc n
      → dump_from (set buf h w) (((h + 1) % log_max_lines + log_max_lines - m) % log_max_lines) 0 m
        ≡ last_lines (dump_from buf ((h + log_max_lines - n) % log_max_lines) 0 n ++ (w ∷ []))
  event_room n m lt e =
      let start : ℕ = (h + log_max_lines - n) % log_max_lines in
      let same : ((h + 1) % log_max_lines + log_max_lines - m) % log_max_lines ≡ start =
        omega arith in
      let old : List CString = dump_from buf start 0 n in
      let short : length (old ++ (w ∷ [])) - log_max_lines ≡ 0 =
        omega (arith, length-append old (w ∷ []), length-dump_from buf start 0 n) in
      rw (same, short, e) (dump_from-set buf w start 0 n h (omega arith) (omega arith) len)

  event_full :
      (k m : ℕ)
      → suc k ≡ log_max_lines
      → m ≡ suc k
      → dump_from (set buf h w) (((h + 1) % log_max_lines + log_max_lines - m) % log_max_lines) 0 m
        ≡ last_lines (dump_from buf ((h + log_max_lines - m) % log_max_lines) 0 m ++ (w ∷ []))
  event_full k m full e =
      let start : ℕ = (h + 1) % log_max_lines in
      let first : ℕ = (h + log_max_lines - m) % log_max_lines in
      let same : ((h + 1) % log_max_lines + log_max_lines - m) % log_max_lines ≡ start =
        omega arith in
      let tail_lines : List CString = dump_from buf first 1 k ++ (w ∷ []) in
      let one : suc (length tail_lines) - log_max_lines ≡ 1 =
        omega (
          arith,
          length-append (dump_from buf first 1 k) (w ∷ []),
          length-dump_from buf first 1 k,
        ) in
      rw
        (
          same,
          dump_from-suc buf first k m e,
          one,
          dump_from_shift buf first start 1 0 k (omega arith),
          e,
        )
        (dump_from-set buf w start 0 k h (omega arith) (omega arith) len)

-- After an event the log dumps the lines from before, then the first 79 bytes of the message, of
-- which all but the last 128 are forgotten.
pub log_dump-event :
    (msg : CString) (l : Log)
    → IsLog l
    → log_dump (log_event (some msg) l) ≡ last_lines (log_dump l ++ (take 79 msg ∷ []))
unfolding log_dump log_event
log_dump-event msg l v = elim (dec_lt l.log_count log_max_lines) [
  | yes p ↦
      let t = lt→ltb l.log_count log_max_lines p in
      rw (← l_strncpy-take msg, log_dump, log_event, t)
        (event_room l.log_buf (l_strncpy msg log_line_len) l.log_head v.lines v.head_in l.log_count
          (l.log_count + 1) p (omega arith))
  | no p ↦
      let t : ltb l.log_count log_max_lines ≡ false = ground arith in
      rw (← l_strncpy-take msg, log_dump, log_event, t)
        (event_full l.log_buf (l_strncpy msg log_line_len) l.log_head v.lines v.head_in 127
          l.log_count refl (omega (arith, v.count_in)))
]
