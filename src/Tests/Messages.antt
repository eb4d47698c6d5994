-- ===== src/Tests/Messages.antt =====
-- src/rpc.c at concrete messages, with a property list library of trees.
use Prim.Native.String.{String}
use ios_webkit_debug_proxy.Prelude.{
  ℕ, suc, ◌≡◌, ◌↔◌, refl, inl, inr, Bool, false, Bool-cases, Option, some, none, List, [], ◌∷◌,
  equal_texts, equal_texts_iff, equal_texts_refl, if◌then◌else◌, arith,
}
use ios_webkit_debug_proxy.Prelude.Status.{Status, success, error}
use ios_webkit_debug_proxy.Rpc.{
  RpcApi, RpcLaws, item, string_of, Node, string, boolean, uint, bytes, dict,
}
use ios_webkit_debug_proxy.Rpc.Send.{message, send_forward_socket_data}
use ios_webkit_debug_proxy.Rpc.Send.Laws.{IsSocketData, send_forward_socket_data_lem}
use ios_webkit_debug_proxy.Rpc.Parse.{App, Page, parse_app, parse_apps}
use ios_webkit_debug_proxy.Rpc.Parse.Laws.{IsListing, parse_apps_iff}
use ios_webkit_debug_proxy.Rpc.Receive.{Callbacks, handled, recv_plist}
use ios_webkit_debug_proxy.Rpc.Receive.Laws.{Answers, recv_plist_lem}
use ios_webkit_debug_proxy.Rpc.Receive.Data.{sent_data_selector, data_args, recv_plist-data_args}
use ios_webkit_debug_proxy.Rpc.Receive.Trim.{find_start, trim}
use ios_webkit_debug_proxy.Rpc.Receive.Trim.Laws.{empty, cons, trim-document}

data Tree : Type 0 where
  text : String → Tree
  flag : Bool → Tree
  number : ℕ → Tree
  blob : List ℕ → Tree
  leaf : Tree
  entry : Tree → String → Tree → Tree

unfoldable entries : Tree → List (Option String × Option Tree)
entries (entry d k v) = (some k, some v) ∷ entries d
entries _ = []

abbrev tree_node : Tree → Node Tree
tree_node (text s) = string s
tree_node (flag b) = boolean b
tree_node (number n) = uint n
tree_node (blob b) = bytes b
tree_node leaf = dict []
tree_node (entry d k v) = dict ((some k, some v) ∷ entries d)

unfoldable tree_item : Tree → String → Option Tree
tree_item (entry d k v) j = let rest = tree_item d j in if equal_texts j k then some v else rest
tree_item _ j = none

abbrev trees : RpcApi
trees = record {
  Plist = Tree;
  node = tree_node;
  dict_get_item = tree_item;
  new_dict = leaf;
  dict_set_item = entry;
  new_string = text;
  new_bool = flag;
  new_uint = number;
  new_data = blob;
  to_xml = λ p. none;
}

trees-RpcLaws : RpcLaws trees
unfolding tree_item
trees-RpcLaws = record {
  string_node = λ s. refl;
  bool_node = λ b. refl;
  uint_node = λ n. refl;
  data_node = λ b. refl;
  item_self = λ d v k. rw (equal_texts_refl k) refl;
  item_other = λ d v j k ne. elim (Bool-cases (equal_texts j k)) [
    | inl y ↦ absurd (ne ((equal_texts_iff j k).0 y))
    | inr n ↦ rw n refl
  ];
}

-- The messages that are sent.
abbrev keep_plist : List Tree → Tree → Status × List Tree
keep_plist sent p = (success, p ∷ sent)

send_forward_socket_data_lem_example :
    (p : Tree) × (send_forward_socket_data trees keep_plist []
        (some "4B25")
        (some "PID:409")
        3
        (some "C1EA")
        (some (123 ∷ 125 ∷ []))
      ≡ keep_plist [] p)
    × IsSocketData trees p "4B25" "PID:409" 3 "C1EA" (123 ∷ 125 ∷ [])
send_forward_socket_data_lem_example =
    send_forward_socket_data_lem trees trees-RpcLaws keep_plist [] "4B25" "PID:409" "C1EA" 3
      (123 ∷ 125 ∷ []) (omega arith) (omega arith)

-- The number of calls and errors; data are refused.
abbrev counted : Callbacks ℕ
counted = record {
  on_report_setup = λ w. (success, suc w);
  on_report_connected_application_list = λ w apps. (success, suc w);
  on_application_connected = λ w app. (success, suc w);
  on_application_disconnected = λ w app. (success, suc w);
  on_application_sent_listing = λ w app_id pages. (success, suc w);
  on_application_sent_data = λ w app_id dest_id b. (error, suc w);
  on_application_updated = λ w app_id dest_id. (success, suc w);
  print_error = λ w text. suc w;
}

abbrev number_of : String → ℕ
number_of key = if equal_texts key "1" then 1 else 0

abbrev data_message : Tree
data_message = message trees sent_data_selector (data_args trees "PID:409" "C1EA" (123 ∷ []))

recv_plist_lem_example :
    Answers trees number_of counted 0
      (item trees (some data_message) "__argument")
      (string_of trees (item trees (some data_message) "__selector"))
      (recv_plist trees number_of counted 0 (some data_message))
recv_plist_lem_example = recv_plist_lem trees number_of counted 0 (some data_message)

recv_plist-data_args_example :
    recv_plist trees number_of counted 0 (some data_message)
    ≡ handled trees number_of counted
        (error, 1)
        sent_data_selector
        (some (data_args trees "PID:409" "C1EA" (123 ∷ [])))
recv_plist-data_args_example =
    recv_plist-data_args trees trees-RpcLaws number_of counted 0 "PID:409" "C1EA" (123 ∷ [])
      (omega arith)

abbrev safari : App
safari = record { app_id = "PID:409"; app_name = none; is_proxy = false }

abbrev safari_tree : Tree
safari_tree = entry leaf "WIRApplicationIdentifierKey" (text "PID:409")

parse_apps_iff_example :
    (parse_apps trees (some (entry leaf "PID:409" safari_tree)) ≡ some (safari ∷ []))
    ↔ IsListing trees
        (parse_app trees)
        (λ key. key)
        (λ (app : App). app.app_id)
        ((some "PID:409", some safari_tree) ∷ [])
        (safari ∷ [])
parse_apps_iff_example =
    parse_apps_iff trees (entry leaf "PID:409" safari_tree)
      ((some "PID:409", some safari_tree) ∷ []) (safari ∷ []) (unfold entries in refl)

abbrev first_page : Page
first_page = record { page_id = 1; connection_id = none; title = some "Start"; url = none }

abbrev page_tree : Tree
page_tree = entry (entry leaf "WIRPageIdentifierKey" (number 1)) "WIRTitleKey" (text "Start")

-- `<plist a>`, a newline, `<x>`, a newline, `</plist>` and a newline, behind one more character.
abbrev document : List ℕ
document =
    9 ∷ 60 ∷ 112 ∷ 108 ∷ 105 ∷ 115 ∷ 116 ∷ 32 ∷ 97 ∷ 62 ∷ 10 ∷ 60 ∷ 120 ∷ 62 ∷ 10 ∷ 60 ∷ 47 ∷ 112
    ∷ 108 ∷ 105 ∷ 115 ∷ 116 ∷ 62 ∷ 10 ∷ []

trim-document_example : trim document ≡ 60 ∷ 120 ∷ 62 ∷ []
trim-document_example =
    trim-document document (32 ∷ 97 ∷ []) (120 ∷ 62 ∷ []) 60 10 1 1
      (cons (omega arith) (cons (omega arith) empty)) (omega arith) (unfold find_start in refl)
