-- ===== src/Tests/Setup.antt =====
-- The module of all methods, and the documents of the tests' database.
use kakarot_rpc.Prelude.{
  ℕ, String, Option, some, none, false, List, [], ◌∷◌, map, filter_map, ◌≡◌, ◌≢◌, refl, ap, inl,
  inr, arith, if◌then◌else◌,
}
use kakarot_rpc.Prelude.Hex.{Text}
use kakarot_rpc.Prelude.Map.{overlay, string_dec}
use kakarot_rpc.Prelude.Result.{ok}
use kakarot_rpc.EthProvider.Document.{Document, string, document, doc}
use kakarot_rpc.EthRpc.Module.{
  KakarotRpcModule, names_of, has_name, JsonRpc, MergesApart, Servers, rpc_module,
}
use kakarot_rpc.EthRpc.Module.Merged.{Distinct, entry_of, rpc_module-answers}
use kakarot_rpc.TestUtils.Mongo.{Driver, update_many, get_document, get_value, path_of}
use kakarot_rpc.TestUtils.Mongo.Upserted.{
  Upserts, text_discrete, Unique, replay, Says, update_many_refines,
}

-- A set of methods is a function from names.
abbrev pub test_json_rpc : JsonRpc
test_json_rpc = record {
  Methods = String → Option ℕ;
  Callback = ℕ;
  RegisterMethodError = Unit {0};
  method = λ name m. m name;
  new_module = λ name. none;
  merge = λ a b. ok (λ name. overlay (b name) (a name));
}

pub test_merges : MergesApart test_json_rpc
test_merges = record {
  method-new_module = λ name. refl;
  merge-apart = λ a b h. (_, refl, λ name. refl);
}

abbrev number_of : KakarotRpcModule → ℕ
number_of KakarotRpcModule.eth = 0
number_of KakarotRpcModule.alchemy = 1
number_of KakarotRpcModule.web3 = 2
number_of KakarotRpcModule.net = 3

abbrev pub test_servers : Servers test_json_rpc
test_servers = record {
  methods = λ k name. if has_name (names_of k) name then some (number_of k) else none;
}

pub test_registered :
    (k : KakarotRpcModule) (name : String)
    → has_name (names_of k) name ≡ false
    → test_servers.methods k name ≡ none
test_registered k name h = rw h

abbrev test_order : List KakarotRpcModule
test_order =
    KakarotRpcModule.net ∷ KakarotRpcModule.eth ∷ KakarotRpcModule.web3 ∷ KakarotRpcModule.alchemy
    ∷ []

test-Distinct : Distinct test_order
test-Distinct = (
  ((λ e. cc), ((λ e. cc), ((λ e. cc), tt))),
  (((λ e. cc), ((λ e. cc), tt)), (((λ e. cc), tt), (tt, tt))),
)

rpc_module-answers_example :
    (m : String → Option ℕ) × (rpc_module test_json_rpc
        (map (entry_of test_json_rpc test_servers) test_order)
      ≡ ok m)
    × (m "eth_call" ≡ test_servers.methods KakarotRpcModule.eth "eth_call")
rpc_module-answers_example =
    rpc_module-answers test_json_rpc test_servers test_merges test_registered test_order
      KakarotRpcModule.eth "eth_call" test-Distinct (inr (inl refl)) refl

abbrev upserted :
    (String → Text → List Document) → String → Text → Document → String → Text → List Document
upserted c path text u p t = elim (string_dec p path) [
  | yes _ ↦ elim (text_discrete t text) [ yes _ ↦ u ∷ [] | no _ ↦ c p t ]
  | no _ ↦ c p t
]

upserted_same :
    (c : String → Text → List Document) (path : String) (text : Text) (u : Document)
    → upserted c path text u path text ≡ u ∷ []
upserted_same c path text u = of (string_dec path path) (text_discrete text text)
  where
    of :
        (d : Dec (path ≡ path)) (e : Dec (text ≡ text))
        → elim d [ yes _ ↦ elim e [ yes _ ↦ u ∷ [] | no _ ↦ c path text ] | no _ ↦ c path text ]
          ≡ u ∷ []
    of (yes _) (yes _) = refl
    of (yes _) (no n) = absurd (n refl)
    of (no n) e = absurd (n refl)

upserted_other :
    (c : String → Text → List Document) (path : String) (text : Text) (u : Document) (other : Text)
    → other ≢ text
    → upserted c path text u path other ≡ c path other
upserted_other c path text u other h = of (string_dec path path) (text_discrete other text)
  where
    of :
        (d : Dec (path ≡ path)) (e : Dec (other ≡ text))
        → elim d [ yes _ ↦ elim e [ yes _ ↦ u ∷ [] | no _ ↦ c path other ] | no _ ↦ c path other ]
          ≡ c path other
    of (yes _) (yes p) = absurd (h p)
    of (yes _) (no n) = refl
    of (no n) e = refl

-- A collection is a function from paths and strings.
abbrev test_driver : Driver
test_driver = record {
  Collection = String → Text → List Document;
  update_one = λ c path text u. ok (upserted c path text u);
}

abbrev inner_documents : String → List Document → List Document
inner_documents doc = filter_map (get_document doc)

test_upserts : Upserts test_driver
test_upserts = record {
  matching = λ c doc value t. inner_documents doc (c (path_of test_driver doc value) t);
  upsert = λ c doc value text u inner at_inner at_text few.
      (_, refl, here c doc value text u inner at_inner, elsewhere c doc value text u);
}
  where
    here :
        (c : String → Text → List Document) (doc value : String) (text : Text) (u inner : Document)
        → get_document doc u ≡ some inner
        → inner_documents doc
            (upserted c (path_of test_driver doc value) text u (path_of test_driver doc value) text)
          ≡ inner ∷ []
    here c doc value text u inner e = rw (upserted_same c (path_of test_driver doc value) text u, e)

    elsewhere :
        (c : String → Text → List Document) (doc value : String) (text : Text) (u : Document)
        (other : Text)
        → other ≢ text
        → inner_documents doc (
            upserted c (path_of test_driver doc value) text u (path_of test_driver doc value) other)
          ≡ inner_documents doc (c (path_of test_driver doc value) other)
    elsewhere c doc value text u other n =
        ap (inner_documents doc) (upserted_other c (path_of test_driver doc value) text u other n)

test_updates : List Document
test_updates =
    doc "header" (document (doc "number" (string (48 ∷ []))))
    ∷ doc "header" (document (doc "number" (string (49 ∷ []))))
    ∷ []

abbrev test_entries : List (Text × Document)
test_entries =
    (48 ∷ [], doc "number" (string (48 ∷ []))) ∷ (49 ∷ [], doc "number" (string (49 ∷ []))) ∷ []

abbrev no_documents : String → Text → List Document
no_documents path text = []

test-Says : Says "header" "number" test_updates test_entries
unfolding test_updates get_value
test-Says = (refl, refl, (refl, refl, tt))

no_documents-Unique : Unique test_driver test_upserts "header" "number" no_documents
unfolding test_upserts
no_documents-Unique t = omega arith

update_many_refines_example :
    (c : String → Text → List Document) × (update_many test_driver "header" "number" no_documents
        test_updates
      ≡ ok c)
    × Unique test_driver test_upserts "header" "number" c
    × ((t : Text)
        → test_upserts.matching c "header" "number" t
          ≡ replay t test_entries (test_upserts.matching no_documents "header" "number" t))
update_many_refines_example =
    update_many_refines test_driver test_upserts "header" "number" test_updates test_entries
      no_documents test-Says no_documents-Unique
