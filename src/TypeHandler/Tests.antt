-- ===== src/TypeHandler/Tests.antt =====
-- TypeHandler on concrete types and names.
use llvm2c.Prelude.{◌≡◌, ◌≢◌, some, [], codes, arith}
use llvm2c.Types.{CType}
use llvm2c.Types.Kinds.{pointed_type}
use llvm2c.TypeHandler.{TypeHandler, sint, int128_type, find_pointer, pointer_to}
use llvm2c.TypeHandler.Signedness.{SignEffect, toggle_signedness-effect}
use llvm2c.TypeHandler.Cache.{IsCache, pointer_to-cached}
use llvm2c.TypeHandler.StructName.{HasNoDot}

dotless : HasNoDot (codes "point")
dotless = omega arith

abbrev empty_handler : TypeHandler
empty_handler = record { pointer_types = []; type_def_count = 0; next_addr = 17 }

toggle_signedness-effect_example : SignEffect int128_type
toggle_signedness-effect_example = toggle_signedness-effect int128_type

pointer_to-cached_example :
    IsCache (pointer_to sint empty_handler).1
    × (pointed_type (pointer_to sint empty_handler).0 ≡ some sint)
    × (pointer_to sint (pointer_to sint empty_handler).1 ≡ pointer_to sint empty_handler)
    × ((other : CType)
        → other ≢ sint
        → find_pointer other (pointer_to sint empty_handler).1.pointer_types
          ≡ find_pointer other empty_handler.pointer_types)
pointer_to-cached_example = pointer_to-cached sint empty_handler tt
