-- ===== src/Tickets/CreateLaws.antt =====
-- Whom a new ticket is filed for.
use helpdesk_go.Base.{◌≡◌, ◌≢◌, ◌⊎◌, Bool, true, false, String, some, [], ◌∷◌, truthy}
use helpdesk_go.Http.{
  str, Request, World, Result, ok, err, Error, message, Value, post, send_json, log,
}
use helpdesk_go.Http.{then_do}
use helpdesk_go.Api.Internal.{create_requester, create_ticket}
use helpdesk_go.Tickets.Create.{Values, read_id, new_ticket, register_requester}

abbrev pub requester_request : String → String → Request
requester_request email name =
    send_json post "/requesters" (("email", str email) ∷ ("display_name", str name) ∷ [])

-- How a creation goes on when a requester has to be registered: nothing but that request if it fails
-- or its answer cannot be read, and otherwise the ticket's request for the new requester's ID.
pub data Registers (key email name : String) (v : Values) (w : World)
    : Result Value × World → Type 0 where
  refused :
      (e : Error)
      → (create_requester email name w).0 ≡ err e
      → Registers key email name v w (err e, log (requester_request email name) w)
  unreadable :
      (r : Value) (e : Error)
      → (create_requester email name w).0 ≡ ok r
      → read_id r ≡ err e
      → Registers key email name v w (err e, log (requester_request email name) w)
  filed :
      (r : Value) (id : String)
      → (create_requester email name w).0 ≡ ok r
      → read_id r ≡ ok id
      → Registers key email name v w
          (create_ticket key (new_ticket v id) (log (requester_request email name) w))

registered : (key email name : String) (v : Values) (w : World) → Result Value × World
registered key email name v w =
    then_do (register_requester email name w) (λ id. create_ticket key (new_ticket v id))

-- How the agent's mutation goes.
pub data AgentCase (key : String) (is_manual : Bool) (v : Values) (w : World)
    : Result Value × World → Type 0 where
  for_known :
      (id : String)
      → v.requester_id ≡ some id
      → id ≢ ""
      → is_manual ≡ false
      → AgentCase key is_manual v w (create_ticket key (new_ticket v id) w)
  incomplete :
      (truthy v.requester_id ≡ false) ⊎ (is_manual ≡ true)
      → (truthy v.requester_email ≡ false) ⊎ (truthy v.requester_name ≡ false)
      → AgentCase key is_manual v w (err (message "Name and email required for new requester"), w)
  for_new :
      (email name : String) (x : Result Value × World)
      → (truthy v.requester_id ≡ false) ⊎ (is_manual ≡ true)
      → v.requester_email ≡ some email
      → v.requester_name ≡ some name
      → Registers key email name v w x
      → AgentCase key is_manual v w x

-- How the manager's mutation goes, once the form has been validated.
pub data ManagerCase (key : String) (v : Values) (w : World) : Result Value × World → Type 0 where
  known :
      (id : String)
      → v.requester_id ≡ some id
      → id ≢ ""
      → ManagerCase key v w (create_ticket key (new_ticket v id) w)
  new :
      (email name : String) (x : Result Value × World)
      → truthy v.requester_id ≡ false
      → v.requester_email ≡ some email
      → v.requester_name ≡ some name
      → (email ≢ "") × (name ≢ "")
      → Registers key email name v w x
      → ManagerCase key v w x
