-- ===== src/Web/Tests.antt =====
-- Concrete chains of middlewares.
use backend_java_spring_boot.Prelude.{◌≡◌, refl, List, [], ◌∷◌}
use backend_java_spring_boot.Http.{respond, no_body}
use backend_java_spring_boot.Web.{pure}
use backend_java_spring_boot.Web.Compose.{RouteHandler, Middleware, compose, opened}
use backend_java_spring_boot.Web.Middlewares.{request_id, map_errors}
use backend_java_spring_boot.Web.Chain.{
  nested, compose-nested, request_id-CallsOnce, map_errors-CallsOnce,
}
use backend_java_spring_boot.Controllers.Samples.{site, get}

abbrev two : List Middleware
two = request_id ∷ map_errors ∷ []

abbrev done : RouteHandler
done req = pure (respond 204 no_body)

compose-nested_example :
    compose two done (get [] []) (opened "r" site) ≡ nested two done (get [] []) (opened "r" site)
compose-nested_example =
    compose-nested two done (get [] []) (opened "r" site)
      (request_id-CallsOnce, (map_errors-CallsOnce, tt)) refl
