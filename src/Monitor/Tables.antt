-- ===== src/Monitor/Tables.antt =====
-- `_generate_tables` of tools/monitor.py: the rows of the table of each region, as texts with their
-- markup.
use sunstorm_xactserver.Base.{
  ℕ, ◌%◌, ◌<>◌, String, ◌||◌, Option, none, some, List, [], ◌∷◌, ◌++◌, ◌==◌, string_eq, length,
  get_elem?, if◌then◌else◌,
}
use sunstorm_xactserver.Base.Dict.{Dict, lookup, insert}
use sunstorm_xactserver.Base.Text.{comes_after}
use sunstorm_xactserver.Monitor.Data.{PodCell, Capacity, Node, Nodes}

abbrev colors : List String
colors =
    "#e6194b" ∷ "#3cb44b" ∷ "#ffe119" ∷ "#4363d8" ∷ "#f58231" ∷ "#911eb4" ∷ "#46f0f0" ∷ "#f032e6"
    ∷ "#bcf60c" ∷ "#fabebe" ∷ "#008080" ∷ "#e6beff" ∷ "#9a6324" ∷ "#fffac8" ∷ "#800000" ∷ "#aaffc3"
    ∷ "#808000" ∷ "#ffd8b1" ∷ "#000075" ∷ "#808080" ∷ "#ffffff" ∷ "#000000" ∷ []

abbrev or_blank : Option String → String
or_blank none = ""
or_blank (some text) = text

-- The item of `itertools.cycle(COLORS)` with a number.
abbrev pub nth_color : ℕ → String
nth_color i = or_blank (get_elem? colors (i % 22))

-- `color_status`; a status that is not there is shown as `None`.
color_status : Option String → String
color_status none = "[b red]None[/b red]"
color_status (some status) =
    if (status == "Running") || (status == "Succeeded")
    then "[b green]" <> (status <> "[/b green]")
    else if status == "Pending"
    then "[b yellow]Pending[/b yellow]"
    else if status == "Terminating"
    then "[b]Terminating[/b]"
    else "[b red]" <> (status <> "[/b red]")

abbrev Row : Type 0
Row = List String

-- `f"[{color}]{text}[/{color}]"`
abbrev colored : String → String → String
colored color text = ("[" <> (color <> "]")) <> (text <> ("[/" <> (color <> "]")))

-- The number of the color of a node, which is new if the node is: one is taken for each new node.
abbrev pub color_number : Dict String ℕ → String → ℕ
color_number node_to_color name = elim (lookup name node_to_color) [
  | none ↦ length node_to_color
  | some i ↦ i
]

pub capacity_cell : Capacity → String
capacity_cell none = ""
capacity_cell (some (cpu, memory)) = "cpu: " <> (cpu <> (", mem: " <> memory))

abbrev pub node_cell : String → Node → String
node_cell name node =
    if name == "" then name else if node.status then name else "[s]" <> (name <> "[/s] (not ready)")

-- The rows of the pods of a node; the cells of the namespace and the node are blank after the first.
unfoldable pub pod_rows : String → String → String → String → List PodCell → List Row
unfolding color_status
pod_rows color namespace_text node_text capacity_text [] = []
pod_rows color namespace_text node_text capacity_text (pod ∷ pods) =
    (namespace_text
      ∷ colored color node_text
      ∷ colored color capacity_text
      ∷ colored color pod.name
      ∷ color_status pod.status
      ∷ [])
    ∷ pod_rows color "" "" "" pods

-- The cell of the namespace after the pods of a node.
abbrev pub namespace_after : String → List PodCell → String
namespace_after text [] = text
namespace_after text (_ ∷ _) = ""

-- The rows of a namespace, and the colors of the nodes.
unfoldable pub node_rows : String → Nodes → Dict String ℕ → List Row × Dict String ℕ
unfolding pod_rows capacity_cell
node_rows namespace_text [] taken = ([], taken)
node_rows namespace_text ((name, node) ∷ rest) taken =
    let number = color_number taken name in
    let rows =
      pod_rows (nth_color number) namespace_text (node_cell name node) (capacity_cell node.capacity)
        node.pods in
    let (later, taken1) =
      node_rows (namespace_after namespace_text node.pods) rest (insert name number taken) in
    (rows ++ later, taken1)

-- `sorted(d.items(), key=lambda x: x[0])`
insert_item : {V : Type 0} → String × V → Dict String V → Dict String V
unfolding comes_after
insert_item item [] = item ∷ []
insert_item item (other ∷ rest) =
    let later = insert_item item rest in
    if comes_after item.0 other.0 then other ∷ later else item ∷ other ∷ rest

sort_items : {V : Type 0} → Dict String V → Dict String V
unfolding insert_item
sort_items [] = []
sort_items (item ∷ items) = insert_item item (sort_items items)

-- The rows of a table, over the namespaces in order.
namespace_rows : Dict String Nodes → Dict String ℕ → List Row × Dict String ℕ
unfolding node_rows
namespace_rows [] taken = ([], taken)
namespace_rows ((namespace, nodes) ∷ rest) taken =
    let (rows, taken1) = node_rows namespace nodes taken in
    let (later, taken2) = namespace_rows rest taken1 in (rows ++ later, taken2)

-- The tables, over the regions in order.
tables_from : Dict String (Dict String Nodes) → Dict String ℕ → List (String × List Row)
unfolding namespace_rows sort_items
tables_from [] taken = []
tables_from ((region, namespaces) ∷ rest) taken =
    let (rows, taken1) = namespace_rows (sort_items namespaces) taken in
    (region, rows) ∷ tables_from rest taken1

unfoldable generate_tables : Dict String (Dict String Nodes) → List (String × List Row)
unfolding tables_from sort_items
generate_tables data_ = tables_from (sort_items data_) []
