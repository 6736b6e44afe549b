-- ===== src/Tools/Spec/GetOrder.antt =====
-- `get_order_tool_spec` of core/tool_system.py.
use mini_agent.Prelude.{List, false, ◌∷◌, map, []}
use mini_agent.Prelude.Texts.{Text, codes}
use mini_agent.Json.{Json, scalar, arr, obj, items, fields, text, bool, int}
use mini_agent.Prelude.Int.{pos}
use mini_agent.Tools.Spec.{ToolSpec}

abbrev typed : Text → Json
typed t = obj (fields ((codes "type", text t) ∷ []))

abbrev texts : List Text → Json
texts ts = arr (items (map text ts))

abbrev closed : Json
closed = scalar (bool false)

abbrev order_id_schema : Json
order_id_schema = obj (
    fields (
      (codes "type", text (codes "string"))
      ∷ (codes "pattern", text (codes "^O-[0-9]{4,20}$"))
      ∷ []))

abbrev input_schema : Json
input_schema = obj (
    fields (
      (codes "type", text (codes "object"))
      ∷ (codes "additionalProperties", closed)
      ∷ (codes "properties", obj (fields ((codes "order_id", order_id_schema) ∷ [])))
      ∷ (codes "required", texts (codes "order_id" ∷ []))
      ∷ []))

abbrev outcome_schema : Json
outcome_schema = obj (
    fields (
      (
        codes "enum",
        texts (codes "FOUND" ∷ codes "NOT_FOUND_OR_NOT_ACCESSIBLE" ∷ codes "SYSTEM_FAILURE" ∷ []),
      )
      ∷ []))

abbrev status_schema : Json
status_schema = obj (
    fields (
      (
        codes "enum",
        texts (
            codes "CREATED"
            ∷ codes "PAID"
            ∷ codes "FULFILLING"
            ∷ codes "SHIPPED"
            ∷ codes "DELIVERED"
            ∷ codes "CANCELLED"
            ∷ []),
      )
      ∷ []))

abbrev line_item_schema : Json
line_item_schema = obj (
    fields (
      (codes "type", text (codes "object"))
      ∷ (codes "additionalProperties", closed)
      ∷ (
        codes "properties",
        obj (
            fields (
              (
                codes "product_name",
                obj (
                    fields (
                      (codes "type", text (codes "string"))
                      ∷ (codes "minLength", scalar (int (pos 1)))
                      ∷ [])),
              )
              ∷ (
                codes "quantity",
                obj (
                    fields (
                      (codes "type", text (codes "integer"))
                      ∷ (codes "minimum", scalar (int (pos 1)))
                      ∷ [])),
              )
              ∷ [])),
      )
      ∷ (codes "required", texts (codes "product_name" ∷ codes "quantity" ∷ []))
      ∷ []))

abbrev line_items_schema : Json
line_items_schema = obj (
    fields (
      (codes "type", text (codes "array"))
      ∷ (codes "minItems", scalar (int (pos 1)))
      ∷ (codes "items", line_item_schema)
      ∷ []))

abbrev timestamp_schema : Json
timestamp_schema = obj (
    fields
      ((codes "type", text (codes "string")) ∷ (codes "format", text (codes "date-time")) ∷ []))

abbrev order_summary_schema : Json
order_summary_schema = obj (
    fields (
      (codes "type", texts (codes "object" ∷ codes "null" ∷ []))
      ∷ (codes "additionalProperties", closed)
      ∷ (
        codes "properties",
        obj (
            fields (
              (codes "order_number", typed (codes "string"))
              ∷ (codes "status", status_schema)
              ∷ (codes "line_items", line_items_schema)
              ∷ (codes "ordered_at", timestamp_schema)
              ∷ (codes "status_updated_at", timestamp_schema)
              ∷ [])),
      )
      ∷ (
        codes "required",
        texts (
            codes "order_number"
            ∷ codes "status"
            ∷ codes "line_items"
            ∷ codes "ordered_at"
            ∷ codes "status_updated_at"
            ∷ []),
      )
      ∷ []))

abbrev output_schema : Json
output_schema = obj (
    fields (
      (codes "type", text (codes "object"))
      ∷ (codes "additionalProperties", closed)
      ∷ (
        codes "properties",
        obj (
            fields (
              (codes "outcome", outcome_schema)
              ∷ (codes "order_summary", order_summary_schema)
              ∷ (
                codes "failure_code",
                obj (fields ((codes "type", texts (codes "string" ∷ codes "null" ∷ [])) ∷ [])),
              )
              ∷ [])),
      )
      ∷ (codes "required", texts (codes "outcome" ∷ []))
      ∷ []))

unfoldable pub get_order_tool_spec : ToolSpec
get_order_tool_spec = record {
  name = codes "get_order";
  description = codes "查询当前已登录用户可访问的单个订单，并返回最小订单摘要。";
  input_schema = input_schema;
  output_schema = output_schema;
}
