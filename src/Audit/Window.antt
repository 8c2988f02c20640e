-- ===== src/Audit/Window.antt =====
-- The log is a window onto the history: the newest entries, in order, and never more than fit.
use mathlib.Core.List.{append-nil, append_assoc}
use helix_gateway.Base.{
  newest-push, newest-nil, take, take-append-drop, ℤ, pos, negsuc, ℕ, ◌-◌, ◌<◌, ◌≡◌, refl, sym, ◌∙◌,
  ap, List, [], ◌∷◌, ◌++◌, length, drop, length-drop, arith,
}
use helix_gateway.Audit.{
  Entry, Log, timed, make_room, record_entry, list, record_all, clip, size_of, new,
}

-- Everything ever recorded, oldest first.
unfoldable pub history : List (ℕ × Entry) → List Entry
history [] = []
history ((now, e) ∷ es) = timed now e ∷ history es

-- The log holds the last `max_size` entries of the history.
abbrev pub IsWindow : List Entry → Log → Type 0
IsWindow past l = l.entries ≡ drop (length past - l.max_size) past

record_entry-IsWindow :
    (now : ℕ) (e : Entry) (past : List Entry) (l : Log)
    → 0 < l.max_size
    → IsWindow past l
    → IsWindow (past ++ timed now e ∷ []) (record_entry now e l)
unfolding record_entry make_room
record_entry-IsWindow now e past l room h =
    ap (λ es. make_room l.max_size es ++ timed now e ∷ []) h
    ∙ newest-push l.max_size past (timed now e) room

record_all-max_size : (es : List (ℕ × Entry)) (l : Log) → (record_all es l).max_size ≡ l.max_size
unfolding record_all record_entry
record_all-max_size [] l = refl
record_all-max_size ((now, e) ∷ es) l = record_all-max_size es (record_entry now e l)

record_all-IsWindow :
    (es : List (ℕ × Entry)) (past : List Entry) (l : Log)
    → 0 < l.max_size
    → IsWindow past l
    → IsWindow (past ++ history es) (record_all es l)
unfolding record_all history
record_all-IsWindow [] past l room h = rw append-nil h
record_all-IsWindow ((now, e) ∷ es) past l room h =
    rw (← append_assoc past (timed now e ∷ []) (history es)) (
      record_all-IsWindow es (past ++ timed now e ∷ []) (record_entry now e l)
        (unfold record_entry in room) (record_entry-IsWindow now e past l room h))

new-max_size : (max_size : ℤ) → 0 < (new max_size).max_size
unfolding new
new-max_size (negsuc n) = omega arith
new-max_size (pos n) = ground arith

new-IsWindow : (max_size : ℤ) → IsWindow [] (new max_size)
unfolding new
new-IsWindow max_size = sym (newest-nil (size_of max_size))

-- After any records, a new log holds the newest entries of the history, as many as its size admits,
-- oldest first; its size is positive whatever size was asked for.
pub record_all-new :
    (max_size : ℤ) (es : List (ℕ × Entry))
    → ((record_all es (new max_size)).entries
        ≡ drop (length (history es) - (new max_size).max_size) (history es))
      × (0 < (new max_size).max_size)
record_all-new max_size es = (
  record_all-IsWindow es [] (new max_size) (new-max_size max_size) (new-IsWindow max_size)
      ∙ ap (λ k. drop (length (history es) - k) (history es))
          (record_all-max_size es (new max_size)),
  new-max_size max_size,
)

sub_clip : (limit : ℤ) (n : ℕ) → n - (n - clip limit n) ≡ clip limit n
sub_clip (negsuc k) n = omega arith
sub_clip (pos k) n = ground arith

-- `list` returns the newest entries, oldest first: all of them for a limit that is not positive or
-- is too large, and exactly `limit` of them otherwise.
list-newest :
    (limit : ℤ) (l : Log)
    → ((older : List Entry) × (l.entries ≡ older ++ list limit l))
      × (length (list limit l) ≡ clip limit (length l.entries))
unfolding list
list-newest limit l =
    let n = clip limit (length l.entries) in
    (
      (
        take (length l.entries - n) l.entries,
        sym (take-append-drop (length l.entries - n) l.entries),
      ),
      length-drop (length l.entries - n) l.entries ∙ sub_clip limit (length l.entries),
    )
