-- ===== src/Request/Client.antt =====
-- The interceptors, the abort controllers and the flat request of
-- frontend/packages/axios/src/index.ts, with its options and its status test.
use smart_copilot.Common.{
  ℕ, ◌+◌, ◌≡◌, refl, ap, sym, ◌∙◌, String, Bool, true, false, not, ◌&&◌, ◌||◌, Option, none, some,
  List, [], ◌∷◌, ◌++◌, ◌==◌, if◌then◌else◌, truthy, is_truthy, leb, ltb, eqb, eq_refl, arith,
}

-- What the interceptor reads of a request: the header with its id, and the number of its signal's
-- controller.
pub record RequestConf : Type 0 where
  pub id_header : Option String
  pub signal : Option ℕ

-- `abortControllerMap`, whose controllers are known by numbers, the next number, and the controllers
-- that were aborted.
pub record Client : Type 0 where
  pub controllers : List (Option String × ℕ)
  pub next : ℕ
  pub aborted : List ℕ

abbrev pub same_key : Option String → Option String → Bool
same_key none none = true
same_key none (some b) = false
same_key (some a) none = false
same_key (some a) (some b) = a == b

-- `map.set(key, c)`
unfoldable pub set_controller :
    Option String → ℕ → List (Option String × ℕ) → List (Option String × ℕ)
set_controller key c [] = (key, c) ∷ []
set_controller key c ((k, d) ∷ m) =
    let rest = set_controller key c m in if same_key key k then (k, c) ∷ m else (k, d) ∷ rest

-- `map.get(key)`
unfoldable pub get_controller : Option String → List (Option String × ℕ) → Option ℕ
get_controller key [] = none
get_controller key ((k, c) ∷ m) =
    let rest = get_controller key m in if same_key key k then some c else rest

-- `map.delete(key)`
unfoldable pub delete_controller :
    Option String → List (Option String × ℕ) → List (Option String × ℕ)
delete_controller key [] = []
delete_controller key ((k, c) ∷ m) =
    let rest = delete_controller key m in if same_key key k then m else (k, c) ∷ rest

abbrev with_id : String → RequestConf → RequestConf
with_id id conf = if is_truthy conf.id_header then conf else record conf { id_header = some id }

-- A new id hides the one that the controller is kept under, which stays what the header was.
abbrev with_signal : Option String → Option ℕ → RequestConf → Client → RequestConf × Client
with_signal key (some c) conf s = (conf, s)
with_signal key none conf s = (
  record conf { signal = some s.next },
  record s { controllers = set_controller key s.next s.controllers; next = s.next + 1 },
)

-- The request interceptor up to the hook, with what `nanoid` returns.
unfoldable pub on_request : String → RequestConf → Client → RequestConf × Client
unfolding set_controller
on_request id conf s = with_signal conf.id_header conf.signal (with_id id conf) s

abbrev cancel_found : String → Option ℕ → Client → Client
cancel_found request_id none s = s
cancel_found request_id (some c) s = record s {
  aborted = c ∷ s.aborted;
  controllers = delete_controller (some request_id) s.controllers;
}

unfoldable pub cancel_request : String → Client → Client
unfolding get_controller delete_controller
cancel_request request_id s =
    cancel_found request_id (get_controller (some request_id) s.controllers) s

abbrev numbers : List (Option String × ℕ) → List ℕ
numbers [] = []
numbers ((k, c) ∷ m) = c ∷ numbers m

unfoldable pub cancel_all_request : Client → Client
cancel_all_request s = record s { aborted = numbers s.controllers ++ s.aborted; controllers = [] }

unfoldable pub is_http_success : ℕ → Bool
is_http_success status = leb 200 status && ltb status 300 || eqb status 304

-- What the response interceptor reads of a response, and its data.
pub record Response (D : Type 0) : Type 0 where
  pub response_type : Option String
  pub new_token : Option String
  pub body : D

-- The options of an instance over the state `W` that its callbacks change.
pub record RequestOption (W D E : Type 0) : Type 0 where
  pub is_backend_success : Response D → Bool
  pub on_token_refresh : Option (String → W → W)
  pub on_backend_fail : Response D → W → W × Option (Response D)
  pub backend_error : Response D → E
  pub on_error : E → W → W

pub data Outcome (D E : Type 0) : Type 0 where
  resolved : Response D → Outcome D E
  rejected : E → Outcome D E

abbrev is_json : Option String → Bool
is_json none = true
is_json (some t) = if truthy t then t == "json" else true

module _ {W D E : Type 0} (opts : RequestOption W D E) where
  abbrev refresh : Option String → W → W
  refresh none w = w
  refresh (some token) w =
      if truthy token then elim (opts.on_token_refresh) [ none ↦ w | some f ↦ f token w ] else w

  abbrev after_fail : Response D → W × Option (Response D) → W × Outcome D E
  after_fail response (w, some fail) = (w, resolved fail)
  after_fail response (w, none) =
      let error = opts.backend_error response in (opts.on_error error w, rejected error)

  -- The response interceptor for a response, and for an error.
  unfoldable pub on_response : Response D → W → W × Outcome D E
  on_response response w =
      let refreshed = refresh response.new_token w in
      if not (is_json response.response_type) || opts.is_backend_success response
      then (refreshed, resolved response)
      else after_fail response (opts.on_backend_fail response refreshed)

  unfoldable pub on_response_error : E → W → W × Outcome D E
  on_response_error error w = (opts.on_error error w, rejected error)

  -- What `flatRequest` returns: the data that `transform` makes of a response, or the error.
  pub record Flat (R : Type 0) : Type 0 where
    pub data_ : Option R
    pub error : Option E

  abbrev flat_of : {R : Type 0} → (Response D → R) → (Response D → R) → W × Outcome D E → W × Flat R
  flat_of transform raw (w, resolved response) = (
    w,
    record {
      data_ = some (if is_json response.response_type then transform response else raw response);
      error = none;
    },
  )
  flat_of transform raw (w, rejected error) = (w, record { data_ = none; error = some error })

get-set_same :
    (id : String) (c : ℕ) (m : List (Option String × ℕ))
    → get_controller (some id) (set_controller (some id) c m) ≡ some c
unfolding get_controller set_controller
get-set_same id c [] = ap (λ b. if b then some c else none) (eq_refl id)
get-set_same id c ((none, d) ∷ m) = get-set_same id c m
get-set_same id c ((some k, d) ∷ m) = ground (arith, eq_refl id, get-set_same id c m)

get-set_none :
    (id : String) (c : ℕ) (m : List (Option String × ℕ))
    → get_controller (some id) (set_controller none c m) ≡ get_controller (some id) m
unfolding get_controller set_controller
get-set_none id c [] = refl
get-set_none id c ((none, d) ∷ m) = refl
get-set_none id c ((some k, d) ∷ m) = ap (λ r. if id == k then some d else r) (get-set_none id c m)

abbrev aborted_by : String → Option ℕ → Client → List ℕ
aborted_by id none s = s.aborted
aborted_by id (some c) s = c ∷ s.aborted

aborted-cancel_found :
    (id : String) (o : Option ℕ) (s : Client) → (cancel_found id o s).aborted ≡ aborted_by id o s
aborted-cancel_found id none s = refl
aborted-cancel_found id (some c) s = refl

aborted_by_same :
    (id : String) (o : Option ℕ) (s t : Client)
    → s.aborted ≡ t.aborted
    → aborted_by id o s ≡ aborted_by id o t
aborted_by_same id none s t h = h
aborted_by_same id (some c) s t h = ap (λ cs. c ∷ cs) h

aborted-cancel_request :
    (id : String) (s : Client)
    → (cancel_request id s).aborted ≡ aborted_by id (get_controller (some id) s.controllers) s
unfolding cancel_request
aborted-cancel_request id s = aborted-cancel_found id (get_controller (some id) s.controllers) s

abbrev pub new_conf : Option String → RequestConf
new_conf id_header = record { id_header = id_header; signal = none }

-- To cancel a request by the id of its header aborts it where the caller gave the id; where the
-- interceptor makes the id, to cancel by it aborts what it would have aborted before the request.
pub cancel_request-on_request :
    (id made : String) (s : Client)
    → ((cancel_request id (on_request made (new_conf (some id)) s).1).aborted ≡ s.next ∷ s.aborted)
      × ((cancel_request made (on_request made (new_conf none) s).1).aborted
          ≡ (cancel_request made s).aborted)
unfolding on_request
cancel_request-on_request id made s =
    let given = (on_request made (new_conf (some id)) s).1 in
    let fresh = (on_request made (new_conf none) s).1 in
    (
      aborted-cancel_request id given
          ∙ ap (λ o. aborted_by id o given) (get-set_same id s.next s.controllers),
      aborted-cancel_request made fresh
          ∙ ap (λ o. aborted_by made o fresh) (get-set_none made s.next s.controllers)
          ∙ aborted_by_same made (get_controller (some made) s.controllers) fresh s refl
          ∙ sym (aborted-cancel_request made s),
    )
