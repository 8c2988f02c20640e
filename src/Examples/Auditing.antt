-- ===== src/Examples/Auditing.antt =====
-- A log of two entries that takes a third.
use helix_gateway.Base.{ℕ, text, List, [], ◌∷◌, ◌≡◌, ◌-◌, ◌<◌, length, drop, pos}
use helix_gateway.Audit.{Entry, Log, new, record_all}
use helix_gateway.Audit.Window.{history, record_all-new}

abbrev login : Entry
login = record {
  time = 0;
  action = text "login";
  resource = text "session";
  resource_id = [];
  user = text "admin";
  remote_addr = text "127.0.0.1";
}

abbrev logins : List (ℕ × Entry)
logins = (1, login) ∷ (2, login) ∷ (3, login) ∷ []

record_all-new_example :
    ((record_all logins (new (pos 2))).entries
      ≡ drop (length (history logins) - (new (pos 2)).max_size) (history logins))
    × (0 < (new (pos 2)).max_size)
record_all-new_example = record_all-new (pos 2) logins

abbrev full : Log
full = record_all logins (new (pos 2))
