-- ===== src/Rpc/Send/Laws.antt =====
-- src/rpc.c: what the messages to the device say, read back with the readers of the other direction.
use Prim.Native.String.{String}
use ios_webkit_debug_proxy.Prelude.{
  ℕ, ◌<◌, ◌^◌, ◌≡◌, refl, ◌∙◌, false, some, List, length, lt→ltb, texts-ne, equal_texts,
}
use ios_webkit_debug_proxy.Prelude.Status.{Status}
use ios_webkit_debug_proxy.Rpc.{
  RpcApi, RpcLaws, item, string_of, uint_of, data_of, required_string, required_uint, required_data,
}
use ios_webkit_debug_proxy.Rpc.Send.{
  selector_key, argument_key, data_selector, connection_key, app_key, page_key, sender_key,
  data_key, new_args, message, with_string, with_page, send_msg, send_forward_socket_data,
}

module _ (api : RpcApi) where
  open api use {Plist}

  -- `p` asks the device to hand `b` to the inspector of a page.
  pub record IsSocketData (p : Plist) (connection_id app_id : String) (page_id : ℕ)
      (sender_id : String) (b : List ℕ) : Type 0 where
    pub selector : required_string api (some p) selector_key ≡ some data_selector
    pub connection :
        required_string api (item api (some p) argument_key) connection_key ≡ some connection_id
    pub app : required_string api (item api (some p) argument_key) app_key ≡ some app_id
    pub page : required_uint api (item api (some p) argument_key) page_key ≡ some page_id
    pub sender : required_string api (item api (some p) argument_key) sender_key ≡ some sender_id
    pub content : required_data api (item api (some p) argument_key) data_key ≡ some b

  module _ (laws : RpcLaws api) where
    -- A key that is not the last one set; the two are texts that are written out.
    pub item_behind :
        (d v : Plist) (j k : String)
        → equal_texts j k ≡ false
        → api.dict_get_item (api.dict_set_item d k v) j ≡ api.dict_get_item d j
    item_behind d v j k h = laws.item_other d v j k (texts-ne j k h)

    module _ (d : Plist) (s : String) (key : String) where
      pub string-set_self :
          required_string api (some (api.dict_set_item d key (api.new_string s))) key ≡ some s
      unfolding required_string item
      string-set_self =
          rw (laws.item_self d (api.new_string s) key, string_of, laws.string_node s) refl

    pub uint-set_self :
        (d : Plist) (n : ℕ) (key : String)
        → n < 2 ^ 32
        → required_uint api (some (api.dict_set_item d key (api.new_uint n))) key ≡ some n
    unfolding required_uint item
    uint-set_self d n key small =
        rw
          (
            laws.item_self d (api.new_uint n) key,
            uint_of,
            laws.uint_node n,
            lt→ltb n (2 ^ 32) small,
          )
          refl

    pub data-set_self :
        (d : Plist) (b : List ℕ) (key : String)
        → length b < 2 ^ 32
        → required_data api (some (api.dict_set_item d key (api.new_data b))) key ≡ some b
    unfolding required_data item
    data-set_self d b key small =
        rw
          (
            laws.item_self d (api.new_data b) key,
            data_of,
            laws.data_node b,
            lt→ltb (length b) (2 ^ 32) small,
          )
          refl

    -- A reader looks at the item only.
    pub string-set_ne :
        (d v : Plist) (j k : String)
        → equal_texts j k ≡ false
        → required_string api (some (api.dict_set_item d k v)) j ≡ required_string api (some d) j
    unfolding required_string item
    string-set_ne d v j k h = rw (item_behind d v j k h) refl

    pub uint-set_ne :
        (d v : Plist) (j k : String)
        → equal_texts j k ≡ false
        → required_uint api (some (api.dict_set_item d k v)) j ≡ required_uint api (some d) j
    unfolding required_uint item
    uint-set_ne d v j k h = rw (item_behind d v j k h) refl

    pub argument-message :
        (selector : String) (args : Plist)
        → item api (some (message api selector args)) argument_key ≡ some args
    unfolding item
    argument-message selector args = laws.item_self _ args argument_key

    pub selector-message :
        (selector : String) (args : Plist)
        → required_string api (some (message api selector args)) selector_key ≡ some selector
    selector-message selector args =
        string-set_ne _ args selector_key argument_key refl
        ∙ string-set_self api.new_dict selector selector_key

    -- For a page number and a length below 2 ^ 32, `rpc_send_forwardSocketData` sends one message,
    -- from which the readers of src/rpc.c get the selector and every argument back.
    pub send_forward_socket_data_lem :
        {W : Type 0} (send_plist : W → Plist → Status × W) (w : W)
        (connection_id app_id sender_id : String) (page_id : ℕ) (b : List ℕ)
        → page_id < 2 ^ 32
        → length b < 2 ^ 32
        → (p : Plist) × (send_forward_socket_data api send_plist w
              (some connection_id)
              (some app_id)
              page_id
              (some sender_id)
              (some b)
            ≡ send_plist w p)
          × IsSocketData p connection_id app_id page_id sender_id b
    unfolding send_forward_socket_data send_msg new_args
    send_forward_socket_data_lem send_plist w connection_id app_id sender_id page_id b page fits =
        let d₁ = new_args api (some connection_id) in
        let d₂ = with_string api d₁ app_key app_id in
        let d₃ = with_page api d₂ page_id in
        let d₄ = with_string api d₃ sender_key sender_id in
        let d₅ = api.dict_set_item d₄ data_key (api.new_data b) in
        let args = argument-message data_selector d₅ in
        (
          message api data_selector d₅,
          refl,
          record {
            selector = selector-message data_selector d₅;
            connection = rw args (
                string-set_ne d₄ _ connection_key data_key refl
                ∙ string-set_ne d₃ _ connection_key sender_key refl
                ∙ string-set_ne d₂ _ connection_key page_key refl
                ∙ string-set_ne d₁ _ connection_key app_key refl
                ∙ string-set_self api.new_dict connection_id connection_key);
            app = rw args (
                string-set_ne d₄ _ app_key data_key refl
                ∙ string-set_ne d₃ _ app_key sender_key refl
                ∙ string-set_ne d₂ _ app_key page_key refl
                ∙ string-set_self d₁ app_id app_key);
            page = rw args (
                uint-set_ne d₄ _ page_key data_key refl
                ∙ uint-set_ne d₃ _ page_key sender_key refl
                ∙ uint-set_self d₂ page_id page_key page);
            sender = rw args (
                string-set_ne d₄ _ sender_key data_key refl
                ∙ string-set_self d₃ sender_id sender_key);
            content = rw args (data-set_self d₄ b data_key fits);
          },
        )
