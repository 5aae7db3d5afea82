-- ===== src/Lib.antt =====
-- Google::ProtocolBuffers::Dynamic: what its C++ code does with messages in the wire format,
-- between the bytes and the Perl values. Paths are those of the repository; a function of the model
-- has the name of the function of the code.
--
-- Pb is the built-in decoder, src/pb/decoder.h and src/pb/decoder.cpp:
--   Pb/Types and Pb/Descriptor are the enumerations and the descriptors; Pb/FieldLookup are the
--   tables that find a field by its number (FieldLookup/Laws, Build and Dense are what holds of them);
--   Pb/Decoder is the decoder's state with the reads of varints and fixed-width numbers; Pb/Tokens
--   is the token machine, with `start_message` and `end_message`; Pb/Values are the getters.
-- Mapper is the code above it:
--   Mapper/Visitor is the loop of `run_bbpb_decoder` in src/mapper.cpp, which hands the tokens
--   to the handlers; Mapper/Bigint are the numbers that Perl holds as Math::BigInt, in src/mapper.cpp;
--   Mapper/Encoder are the loops of src/mapper.cpp over the fields of an encoded message, with the
--   tracking of oneofs and required fields; Encoder/Scalars is `encode_field` for scalars, with
--   the arrays of them, and Encoder/Keys the keys of maps; Mapper/Context is the path of the encoder,
--   src/mapper_context.h and src/mapper_context.cpp; Mapper/FieldMap are the fields of a mapper by
--   name and number, src/fieldmap.h and src/fieldmap.cpp; Mapper/TransformQueue are the
--   transformations that wait for the end of a message, src/transform.h and src/transform.cpp.
--   Mapper/Scalars are Perl's values, with a store of arrays and hashes that have addresses;
--   Mapper/Accessors are the accessors of class MapperField on that store; Mapper/Handlers is the state of
--   class DecoderHandlers, Handlers/Calls its functions, and Handlers/Dispatch gives them to
--   `run_bbpb_decoder`, as `decode_bbpb` does, all in src/mapper.h and src/mapper.cpp.
-- Dynamic/Options are the mapping options of src/dynamic.h and src/dynamic.cpp; Dynamic/Packages is
-- the mapping of messages and enumerations to Perl packages there, with `map_message_prefix`.
-- Examples has runs on small inputs. Common are the tests, lists, bits and sorting that all share.
--
-- State is passed explicitly: an operation takes the object and gives the object after it. A read
-- or a call that C++ leaves undefined is `none`. Pointers into the buffer are 64-bit addresses and
-- keep their wrap-around; `long` has 64 bits, and the machine is little-endian. The unrolled
-- steps of a varint are a recursion over the ten bytes that it can have. The loop of the visitor
-- takes fuel, and what is said of it holds after any number of rounds. The recursion of
-- `map_message_prefix` takes fuel too, one more than the pool has messages, and the loop over a
-- name's parts one more than the name has characters.
--
-- Where the visitor's loop or the encoder's loops are treated by themselves, the handlers and the
-- encoding of one field are parameters; so are the sink of upb, Math::BigInt, Perl's READ_XDIGIT
-- and grok_number, and Perl's conversions of a scalar. Not modelled are the tables of transformed
-- messages in the decoder, the blessing of what it makes and reference counts (the model has no
-- lifetimes), IVs of 32 bits, magic on Perl values, and the constructor of Mapper, which fills its
-- tables from upb's definitions. `encode_field` for messages, maps and arrays of messages, `check`,
-- map fields that hold a Math::BigInt, the walk over nested types, services, introspection, and the
-- loading of descriptors through protobuf and upb are left out.
pub mod Common
pub mod Pb
pub mod Mapper
pub mod Dynamic
pub mod Examples
