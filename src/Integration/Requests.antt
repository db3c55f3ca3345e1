-- ===== src/Integration/Requests.antt =====
-- `RoseClient` of custom_components/rose/client.py. A value of JSON keeps its objects as dicts; what
-- the session answers is an argument, and base 64 and `bytes.fromhex` are parameters. URLs,
-- timeouts and the texts of errors are left out.
use Prim.Native.String.{String}
use text.Mathlib.Text.{◌==◌ as str_eq}
use rose_esp.Prelude.{
  Bool, true, false, ◌&&◌, not, Option, none, some, List, [], ◌∷◌, if◌then◌else◌,
}
use rose_esp.Prelude.Int.{ℤ, pos, eqb_ℤ}
use rose_esp.Prelude.Eq.{string_eq}
use rose_esp.Prelude.Dict.{Dict, put}
use rose_esp.Struct.{Bytes}

mutual
  pub data Json (F : Type 0) : Type 0 where
    null : Json F
    boolean : Bool → Json F
    number : ℤ → Json F
    float : F → Json F
    string : String → Json F
    array : Items F → Json F
    object : Fields F → Json F

  pub data Items (F : Type 0) : Type 0 where
    no_items : Items F
    item : Json F → Items F → Items F

  pub data Fields (F : Type 0) : Type 0 where
    no_fields : Fields F
    field : String → Json F → Fields F → Fields F

-- `RoseApiError`, an error of another kind, or a value.
pub data Reply {ℓ} (A : Type ℓ) : Type ℓ where
  rose_api_error other_error : Reply A
  reply : A → Reply A

infixl 5 ◌>>=◌
abbrev pub ◌>>=◌ : {A B : Type 0} → Reply A → (A → Reply B) → Reply B
rose_api_error >>= next = rose_api_error
other_error >>= next = other_error
reply a >>= next = next a

-- What `request` and `json` give: `raise_for_status` and what is caught raise; the rest is a body.
pub data Response (F : Type 0) : Type 0 where
  failed : Response F  -- ClientError, TimeoutError, OSError or ValueError
  body : Json F → Response F

pub record Call (F : Type 0) : Type 0 where
  pub method : String
  pub path : List String  -- the parts that the path is put together from
  pub json : Option (Json F)

module _ {F : Type 0} where
  -- `d.get(key)`
  abbrev pub lookup : Fields F → String → Json F
  lookup no_fields key = null
  lookup (field k v more) key = if str_eq k key then v else lookup more key

  -- `bool(value)`; `is_zero` is the test of a float.
  module _ (is_zero : F → Bool) where
    unfoldable pub truthy : Json F → Bool
    truthy null = false
    truthy (boolean b) = b
    truthy (number n) = not (eqb_ℤ n (pos 0))
    truthy (float x) = not (is_zero x)
    truthy (string s) = not (str_eq s "")
    truthy (array no_items) = false
    truthy (array (item v items)) = true
    truthy (object no_fields) = false
    truthy (object (field k v more)) = true

    -- `data = body.get("data") or {}`, and the check of its type
    unfoldable pub data_of : Json F → Reply (Fields F)
    data_of v = if truthy v then checked v else reply no_fields
      where
        checked : Json F → Reply (Fields F)
        checked (object entries) = reply entries
        checked _ = rose_api_error

    -- `_request`, on what the session answers
    unfoldable pub request : Response F → Reply (Fields F)
    request failed = rose_api_error
    request (body (object entries)) =
        if truthy (lookup entries "success")
        then data_of (lookup entries "data")
        else rose_api_error
    request (body v) = rose_api_error

    -- An object with a `key` that is true.
    abbrev pub has_true : String → Json F → Bool
    has_true key (object entries) = truthy (lookup entries key)
    has_true key _ = false

    unfoldable pub keep : (Json F → Bool) → Items F → Items F
    keep test no_items = no_items
    keep test (item v items) = let rest = keep test items in if test v then item v rest else rest

    -- The objects of `data.get(key, [])`, where a text or a dict has none; another value that is no
    -- list cannot be iterated over.
    abbrev pub list_of : Fields F → String → Reply (Items F)
    list_of fields key = elements (member fields key)
      where
        member : Fields F → String → Option (Json F)
        member no_fields key = none
        member (field k v more) key =
            let rest = member more key in if str_eq k key then some v else rest

        elements : Option (Json F) → Reply (Items F)
        elements none = reply no_items
        elements (some (array items)) = reply items
        elements (some (string s)) = reply no_items
        elements (some (object d)) = reply no_items
        elements (some _) = other_error

    unfoldable pub ble_in_range : Response F → Reply (Items F)
    ble_in_range response = request response >>= λ d.
        list_of d "devices" >>= λ devices. reply (keep (has_true "mac") devices)

    abbrev pub is_object : Json F → Bool
    is_object (object entries) = true
    is_object _ = false

    -- The edges of a capture, from the response to `signal_exchange`.
    unfoldable pub exchanged_edges : Response F → Reply (Items F)
    exchanged_edges response =
        request response >>= λ d. list_of d "edges" >>= λ edges. reply (keep is_object edges)

    -- `str` of a value, and `str(…).strip().replace("-", ":").lower()`
    module _ (show : Json F → String) (normal : String → String) where
      unfoldable pub names_from : Items F → Dict String String → Dict String String
      names_from no_items names = names
      names_from (item v items) names = names_from items (named v)
        where
          named : Json F → Dict String String
          named (object entries) =
              if truthy (lookup entries "mac") && truthy (lookup entries "name")
              then put names (normal (show (lookup entries "mac"))) (show (lookup entries "name"))
              else names
          named _ = names

      unfoldable pub ble_device_names : Response F → Reply (Dict String String)
      ble_device_names response =
          request response >>= λ d. list_of d "names" >>= λ items. reply (names_from items [])

  abbrev pub edge_json : List (ℤ × ℤ) → Items F
  edge_json [] = no_items
  edge_json ((level, duration) ∷ signal) =
      item (object (field "level" (number level) (field "duration_us" (number duration) no_fields)))
        (edge_json signal)

  -- An object with these fields.
  abbrev pub object_of : List (String × Json F) → Json F
  object_of entries = object (fields_of entries)
    where
      fields_of : List (String × Json F) → Fields F
      fields_of [] = no_fields
      fields_of ((k, v) ∷ entries) = field k v (fields_of entries)

  -- The requests that carry a body; `show_int` is the text of a number.
  module _ (show_int : ℤ → String) where
    unfoldable pub signal_tx : ℤ → List (ℤ × ℤ) → ℤ → F → ℤ → ℤ → Call F
    signal_tx gpio signal carrier_hz duty_cycle repeat repeat_gap_us = record {
      method = "POST";
      path = "/api/v1/gpio/" ∷ show_int gpio ∷ "/signal/tx" ∷ [];
      json = some (
          object_of (
            ("signal", array (edge_json signal))
            ∷ ("carrier_hz", number carrier_hz)
            ∷ ("duty_cycle", float duty_cycle)
            ∷ ("repeat", number repeat)
            ∷ ("repeat_gap_us", number repeat_gap_us)
            ∷ []));
    }

    unfoldable pub signal_exchange : F → ℤ → List (ℤ × ℤ) → ℤ → ℤ → Call F
    signal_exchange half gpio signal rx_total_us rx_max_edges = record {
      method = "POST";
      path = "/api/v1/gpio/" ∷ show_int gpio ∷ "/signal/exchange" ∷ [];
      json = some (
          object_of (
            ("tx_signal", array (edge_json signal))
            ∷ ("carrier_hz", number (pos 0))
            ∷ ("duty_cycle", float half)
            ∷ ("rx_total_us", number rx_total_us)
            ∷ ("rx_max_edges", number rx_max_edges)
            ∷ ("resolution", string "exact")
            ∷ []));
    }

    unfoldable pub uart_send :
        (String → Option Bytes) → (Bytes → String) → ℤ → String → Reply (Call F)
    uart_send from_hex base64 uart_id hex_command = elim (from_hex hex_command) [
      | none ↦ other_error
      | some bytes ↦ reply (record {
        method = "POST";
        path = "/api/v1/uart/" ∷ show_int uart_id ∷ "/send" ∷ [];
        json = some (object_of (("data_base64", string (base64 bytes)) ∷ []));
      })
    ]
