-- ===== src/Parameters/Table.antt =====
-- internal/parameters/definitions_gen.go: the definitions of all parameters, in the order of their ids.
mod Part1
mod Part2
mod Part3
mod Part4
mod Part5
mod Part6
mod Part7
mod Part8
mod Part9
mod Part10
mod Part11
mod Part12
mod Part13
mod Part14
use vrcft_go.Base.{List, [], ◌++◌}
use vrcft_go.Parameters.Definition.{ParameterDefinition}
use vrcft_go.Parameters.Table.Part1.{part_1}
use vrcft_go.Parameters.Table.Part2.{part_2}
use vrcft_go.Parameters.Table.Part3.{part_3}
use vrcft_go.Parameters.Table.Part4.{part_4}
use vrcft_go.Parameters.Table.Part5.{part_5}
use vrcft_go.Parameters.Table.Part6.{part_6}
use vrcft_go.Parameters.Table.Part7.{part_7}
use vrcft_go.Parameters.Table.Part8.{part_8}
use vrcft_go.Parameters.Table.Part9.{part_9}
use vrcft_go.Parameters.Table.Part10.{part_10}
use vrcft_go.Parameters.Table.Part11.{part_11}
use vrcft_go.Parameters.Table.Part12.{part_12}
use vrcft_go.Parameters.Table.Part13.{part_13}
use vrcft_go.Parameters.Table.Part14.{part_14}

abbrev pub definitions : List ParameterDefinition
definitions =
    part_1 ++ part_2 ++ part_3 ++ part_4 ++ part_5 ++ part_6 ++ part_7 ++ part_8 ++ part_9
    ++ part_10 ++ part_11 ++ part_12 ++ part_13 ++ part_14
