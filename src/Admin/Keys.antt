-- ===== src/Admin/Keys.antt =====
-- internal/admin/keys.go: the handlers of API keys, which record each change in the audit log.
use helix_gateway.Base.{Text, text, is_empty, true, not, [], Option, none, some, if◌then◌else◌}
use helix_gateway.Store.Model.{ApiKey}
use helix_gateway.Store.State.{ok, err, no_key}
use helix_gateway.Store.Keys
use helix_gateway.Audit.{Entry, record_entry}
use helix_gateway.Admin.{
  Env, Handlers, Answer, AdminRequest, KeyRequest, keys, key, created_key, nothing, write_json,
  write_error, err_bad_request, store_err, with_store, reply, decoded,
}

-- listKeys
unfoldable pub list_keys : Handlers → Answer
list_keys h = write_json 200 (keys (Keys.list_api_keys h.store))

-- getKey
unfoldable pub get_key : Env → Handlers → Text → Answer × Handlers
get_key env h id = reply env h (λ k. write_json 200 (key k)) (Keys.get_api_key h.store id, h.store)

-- GenerateAPIKey: the plain text and its hash, from 32 random bytes
unfoldable pub generate_api_key : Env → Option (Text × Text)
generate_api_key env = elim env.random [
  | none ↦ none
  | some b ↦ (let plaintext = env.base64 b in some (plaintext, env.hash_key plaintext))
]

-- The user of r.BasicAuth, empty without credentials.
abbrev pub user_of : AdminRequest → Text
user_of r = elim r.credentials [ none ↦ [] | some c ↦ c.0 ]

-- The entry that a change of a key records; its details are left out.
abbrev pub key_entry : Text → Text → AdminRequest → Entry
key_entry action id r = record {
  time = 0;
  action = action;
  resource = text "api_key";
  resource_id = id;
  user = user_of r;
  remote_addr = r.remote_addr;
}

-- h.auditLog.Record
abbrev pub audited : Env → Entry → Answer × Handlers → Answer × Handlers
audited env e (a, h) = (a, record h { audit_log = record_entry env.io.now e h.audit_log })

-- The key that createKey hands to the store.
abbrev pub requested_key : KeyRequest → Text → ApiKey
requested_key req hash = record no_key {
  name = req.name;
  key_hash = hash;
  active = true;
  scopes = req.scopes;
}

-- createKey, after the decoding; the body is not limited, since the reader that limits it is dropped
unfoldable pub create_requested_key : Env → Handlers → AdminRequest → KeyRequest → Answer × Handlers
create_requested_key env h r req =
    if is_empty req.name
    then (err_bad_request (text "name is required"), h)
    else elim (generate_api_key env) [
      | none ↦ (write_error 500 (text "key_gen_error") (text "failed to generate key"), h)
      | some g ↦
          (let (e, s) = Keys.create_api_key env.io h.store (requested_key req g.1) in
            elim e [
              | err f ↦ (store_err env f, with_store h s)
              | ok k ↦
                  audited env (key_entry (text "create_api_key") k.id r)
                    (write_json 201 (created_key k g.0), with_store h s)
            ])
    ]

-- createKey
unfoldable pub create_key : Env → Handlers → AdminRequest → Answer × Handlers
create_key env h r = decoded h (env.json.key r.body) (create_requested_key env h r)

-- deleteKey
unfoldable pub delete_key : Env → Handlers → Text → AdminRequest → Answer × Handlers
delete_key env h id r =
    let (e, s) = Keys.delete_api_key env.io h.store id in
    elim e [
      | err f ↦ (store_err env f, with_store h s)
      | ok t ↦
          audited env (key_entry (text "delete_api_key") id r)
            (write_json 204 nothing, with_store h s)
    ]

-- toggleKey: the key is turned over, whatever the body says
unfoldable pub toggle_key : Env → Handlers → Text → AdminRequest → Answer × Handlers
toggle_key env h id r = elim (Keys.get_api_key h.store id) [
  | err f ↦ (store_err env f, h)
  | ok existing ↦
      (let (e, s) = Keys.toggle_api_key env.io h.store id (not existing.active) in
        elim e [
          | err f ↦ (store_err env f, with_store h s)
          | ok k ↦
              audited env (key_entry (text "toggle_api_key") id r)
                (write_json 200 (key k), with_store h s)
        ])
]
